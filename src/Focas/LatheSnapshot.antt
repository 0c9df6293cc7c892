-- ===== src/Focas/LatheSnapshot.antt =====
-- The lathe's snapshot.
use pottracker.Prelude.{
  ℕ, ◌+◌, ◌*◌, ◌≡◌, refl, sym, ◌∙◌, ap, subst, String, Bool, true, false, Option, none, some, List,
  if◌then◌else◌,
}
use pottracker.Prelude.Search.{some_inj}
use pottracker.Decimal.{Decimal, ℤ}
use pottracker.Model.{
  RegisterType, tip, h_geom, OffsetRegister, WorkOffsetSlot, work_shift, ext, g54, g55, g56, g57,
  g58, g59, Axis, x, z, WorkOffsetEntry, MachineSnapshot, register_key_eq,
}
use pottracker.Decoders.{decode_offset}
use pottracker.Mirror.Domains.{work_domain}
use pottracker.Mirror.Rows.{work_key_eq}
use pottracker.Mirror.Loop.{Unique}
use pottracker.Mirror.Observed.{IsSweep}
use pottracker.Focas.Library.{Library}
use pottracker.Focas.Sweep.{Distinct-is_distinct, Echoes, gather-Unique}
use pottracker.Focas.Reads.{
  Client, returned, Holds, Holds->>=, Holds-any, Cell, cells, upward, count_of_range, is_ok,
  positive, read_offset_layout,
}
use pottracker.Focas.Lathe.{
  lathe_type_map, lathe_register, lathe_answered, work_slots, axes_of, read_lathe_cell,
  lathe_offsets_of, read_offsets_lathe, work_entry, work_reply, read_work_offsets_lathe,
  read_status_lathe, lathe_assembled,
}
use pottracker.Focas.Swept.{
  cell_key, offset_key, DistinctTypes, types_apart, cells-Distinct, EchoesOffsets, not_some,
}

lathe_register-key :
    (n : ℕ) (raw : ℤ) (r : RegisterType) (increment : Decimal)
    → offset_key (lathe_register n raw r increment) ≡ (n, r)
unfolding decode_offset
lathe_register-key n raw tip increment = refl
lathe_register-key n raw h_geom increment = refl
lathe_register-key n raw _ increment = refl

lathe_type_map-DistinctTypes : DistinctTypes lathe_type_map
lathe_type_map-DistinctTypes = types_apart lathe_type_map refl

abbrev slot_rank : WorkOffsetSlot → ℕ
slot_rank work_shift = 0
slot_rank ext = 1
slot_rank g54 = 2
slot_rank g55 = 3
slot_rank g56 = 4
slot_rank g57 = 5
slot_rank g58 = 6
slot_rank g59 = 7

abbrev work_rank : WorkOffsetSlot × Axis → ℕ
work_rank (slot, x) = 2 * slot_rank slot
work_rank (slot, z) = 2 * slot_rank slot + 1

module _ (lib : Library) where
  lathe_answered-key :
      (b : Bool) (a : Option ℕ) (raw : ℤ) (c : Cell) (increment : Decimal) (o : OffsetRegister)
      → ((datano : ℕ) → b ≡ true → a ≡ some datano → datano ≡ c.num)
      → lathe_answered b a raw c.register_type increment ≡ some o
      → offset_key o ≡ cell_key c
  lathe_answered-key true (some d) raw c increment o echo h =
      sym (ap offset_key (some_inj h))
      ∙ lathe_register-key d raw c.register_type increment
      ∙ ap (λ n. (n, c.register_type)) (echo d refl refl)
  lathe_answered-key true none raw c increment o echo h = absurd (not_some h)
  lathe_answered-key false a raw c increment o echo h = absurd (not_some h)

  read_lathe_cell-Echoes :
      (increment : Decimal)
      → EchoesOffsets lib
      → Echoes offset_key cell_key (read_lathe_cell lib increment)
  unfolding read_lathe_cell
  read_lathe_cell-Echoes increment echo c o h =
      lathe_answered-key (is_ok (lib.cnc_rdtofs c.num c.type_code).0)
        (positive (lib.cnc_rdtofs c.num c.type_code).1) (lib.cnc_rdtofs c.num c.type_code).2 c
        increment o (echo c.num c.type_code) h

  work_of :
      (b : Bool) (q : WorkOffsetSlot × Axis) (v : Decimal) (o : WorkOffsetEntry)
      → (if b then some (record { slot = q.0; axis = q.1; value = v }) else none) ≡ some o
      → work_domain.key o ≡ q
  work_of true q v o h = sym (ap work_domain.key (some_inj h))
  work_of false q v o h = absurd (not_some h)

  work_entry-Echoes :
      (increment : Decimal) → Echoes work_domain.key (λ q. q) (work_entry lib increment)
  work_entry-Echoes increment q o h = work_of (is_ok (work_reply lib q.0).0) q _ o h

  lathe_offsets_of-Unique :
      (client : Client) (use_no : Option ℤ)
      → EchoesOffsets lib
      → Unique offset_key (lathe_offsets_of lib client use_no)
  unfolding Unique
  lathe_offsets_of-Unique client none echo = tt
  lathe_offsets_of-Unique client (some n) echo =
      gather-Unique offset_key cell_key (read_lathe_cell lib client.offset_increment)
        (read_lathe_cell-Echoes client.offset_increment echo)
        (cells (upward (count_of_range n) 1) lathe_type_map)
        (cells-Distinct (count_of_range n) 1 lathe_type_map lathe_type_map-DistinctTypes)

  read_work_offsets_lathe-Unique :
      (client : Client) → Unique work_domain.key (read_work_offsets_lathe lib client)
  unfolding read_work_offsets_lathe
  read_work_offsets_lathe-Unique client =
      gather-Unique work_domain.key (λ q. q) (work_entry lib client.offset_increment)
        (work_entry-Echoes client.offset_increment) (axes_of work_slots)
        (Distinct-is_distinct work_rank (λ q. q) (axes_of work_slots) refl)

  lathe_assembled-Holds :
      (machine_id : String) (polled_at : ℕ) (client : Client)
      → EchoesOffsets lib
      → Holds (λ r. IsSweep r.1) (lathe_assembled lib machine_id polled_at client)
  unfolding read_offsets_lathe Unique
  lathe_assembled-Holds machine_id polled_at client echo =
      Holds->>= (λ _. Unit {0}) (λ r. IsSweep r.1) (read_status_lathe lib) _
        (Holds-any (read_status_lathe lib))
        λ status _.
          Holds->>= (λ r. Unique offset_key r.1) (λ r. IsSweep r.1) (read_offsets_lathe lib client)
            _
            (Holds->>= (λ _. Unit {0}) (λ (r : Client × List OffsetRegister). Unique offset_key r.1)
              (read_offset_layout lib client) _ (Holds-any (read_offset_layout lib client))
              λ laid _. lathe_offsets_of-Unique laid laid.offset_use_no echo)
            λ read u. record {
              unique_offsets = u;
              unique_pots = tt;
              unique_macros = tt;
              unique_work_offsets = read_work_offsets_lathe-Unique read.0;
              unique_tool_life = tt;
            }

  -- For a control that answers an offset read with the register it was asked for, a snapshot that the
  -- lathe's source returns reads no register bank and no work offset twice, as the mirror requires.
  pub lathe_assembled-IsSweep :
      (machine_id : String) (polled_at : ℕ) (client : Client) (r : Client × MachineSnapshot)
      → EchoesOffsets lib
      → lathe_assembled lib machine_id polled_at client ≡ returned r
      → IsSweep r.1
  lathe_assembled-IsSweep machine_id polled_at client r echo h =
      subst (Holds (λ (r : Client × MachineSnapshot). IsSweep r.1)) h
        (lathe_assembled-Holds machine_id polled_at client echo)
