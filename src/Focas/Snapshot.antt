-- ===== src/Focas/Snapshot.antt =====
-- A whole snapshot of the mill: every domain is read once, and each bank of each register shows what its
-- own call answered.
use pottracker.Prelude.{
  ℕ, zero, suc, ◌+◌, ◌≤◌, ◌≡◌, refl, sym, ◌∙◌, ap, ap₂, subst, String, Option, none, some, List,
  if_elim, eqb, nat_eq, [], All, All-mono, arith,
}
use pottracker.Prelude.Search.{some_inj}
use pottracker.Decimal.{Decimal, ℤ, pos, negsuc}
use pottracker.Model.{OffsetRegister, MachineSnapshot, PotEntry, MacroVariable, register_key_eq}
use pottracker.Mirror.Diff.{pot_domain}
use pottracker.Mirror.Domains.{macro_domain, work_domain, life_domain}
use pottracker.Mirror.Rows.{work_key_eq}
use pottracker.Mirror.Loop.{seen, Unique}
use pottracker.Mirror.Observed.{IsSweep}
use pottracker.Focas.Library.{Library}
use pottracker.Focas.Sweep.{Distinct, Distinct-is_distinct, Echoes, seen-gather, gather-Unique}
use pottracker.Focas.Reads.{
  Client, Answer, returned, failed, Holds, Holds->>=, Holds-any, TypeMap, memory_a, memory_b,
  memory_c, cells, upward, count_of_range, ofs_type_dispatch, read_cell, read_offsets, offsets_of,
  dispatched, ensure_layout, read_pots_pmc, read_pot, read_tool_life, read_macros, macro_entry,
  skip_macro_vars, read_pmc_byte, read_macro, pot_entry, macro_of,
}
use pottracker.Focas.Client.{read_snapshot, read_status, assembled, identified, alarms_read}
use pottracker.Focas.Tools.{ListsOnce, read_tool_life-Unique}
use pottracker.Focas.Swept.{
  cell_key, offset_key, DistinctTypes, types_apart, cells-Distinct, EchoesOffsets, read_cell-Echoes,
}

abbrev AllTypes : Option TypeMap → Type 0
AllTypes none = Unit
AllTypes (some types) = DistinctTypes types

ofs_type_dispatch-AllTypes : (t : ℤ) → AllTypes (ofs_type_dispatch t)
unfolding ofs_type_dispatch
ofs_type_dispatch-AllTypes (negsuc n) = tt
ofs_type_dispatch-AllTypes (pos n) =
    if_elim AllTypes (eqb n 1) (λ _. types_apart memory_a refl)
      λ _.
        if_elim AllTypes (eqb n 2) (λ _. types_apart memory_b refl)
          λ _. if_elim AllTypes (eqb n 3) (λ _. types_apart memory_c refl) (λ _. tt)

dispatched-AllTypes : (t : Option ℤ) → AllTypes (dispatched t)
unfolding dispatched
dispatched-AllTypes none = tt
dispatched-AllTypes (some t) = ofs_type_dispatch-AllTypes t

upward_above : (count start : ℕ) → All (λ n. start ≤ n) (upward count start)
unfolding upward
upward_above zero start = tt
upward_above (suc count) start = (
  omega arith,
  All-mono (λ n. suc start ≤ n) (λ n. start ≤ n) (λ n h. omega arith) (upward count (suc start))
      (upward_above count (suc start)),
)

upward-Distinct : (count start : ℕ) → Distinct (λ i. i + 1) (upward count start)
unfolding upward
upward-Distinct zero start = tt
upward-Distinct (suc count) start = (
  All-mono (λ n. suc start ≤ n) (λ n. n + 1 ≡ start + 1 → ⊥) (λ n h e. absurd (omega arith))
      (upward count (suc start)) (upward_above count (suc start)),
  upward-Distinct count (suc start),
)

module _ (lib : Library) where
  pot_entry-key : (n : ℕ) (b : Option ℕ) (x : PotEntry) → pot_entry n b ≡ some x → x.pot_number ≡ n
  pot_entry-key n none x h = ground arith
  pot_entry-key n (some raw) x h = sym (ap (λ e. e.pot_number) (some_inj h))

  macro_of-key :
      (n : ℕ) (a : Answer (Option Decimal)) (x : MacroVariable)
      → macro_of n a ≡ some x
      → x.number ≡ n
  macro_of-key n (failed e) x h = ground arith
  macro_of-key n (returned v) x h = sym (ap (λ e. e.number) (some_inj h))

  read_pot-Echoes : Echoes pot_domain.key (λ i. i + 1) (read_pot lib)
  unfolding read_pot
  read_pot-Echoes i x h = pot_entry-key (i + 1) (read_pmc_byte lib 9 (105 + i)) x h

  macro_entry-Echoes : Echoes macro_domain.key (λ n. n) (macro_entry lib)
  unfolding macro_entry
  macro_entry-Echoes n x h = macro_of-key n (read_macro lib n) x h

  read_pots_pmc-Unique : (client : Client) → Unique pot_domain.key (read_pots_pmc lib client)
  unfolding read_pots_pmc
  read_pots_pmc-Unique client =
      gather-Unique pot_domain.key (λ i. i + 1) (read_pot lib) read_pot-Echoes
        (upward client.pot_count 0) (upward-Distinct client.pot_count 0)

  read_macros-Unique : Unique macro_domain.key (read_macros lib skip_macro_vars)
  unfolding read_macros
  read_macros-Unique =
      gather-Unique macro_domain.key (λ n. n) (macro_entry lib) macro_entry-Echoes skip_macro_vars
        (Distinct-is_distinct (λ n. n) (λ n. n) skip_macro_vars refl)

  module _ (echo : EchoesOffsets lib) where
    offsets_of-Unique :
        (client : Client) (use_no : Option ℤ) (types : Option TypeMap)
        → AllTypes types
        → Unique offset_key (offsets_of lib client use_no types)
    unfolding Unique
    offsets_of-Unique client none types h = tt
    offsets_of-Unique client (some n) none h = tt
    offsets_of-Unique client (some n) (some types) h =
        gather-Unique offset_key cell_key (read_cell lib client.offset_increment)
          (read_cell-Echoes lib client.offset_increment echo)
          (cells (upward (count_of_range n) 1) types) (cells-Distinct (count_of_range n) 1 types h)

  -- What a snapshot of the client is made of.
  record IsRead (r : Client × MachineSnapshot) : Type 0 where
    offsets : (r.1).offsets ≡ offsets_of lib r.0 (r.0).offset_use_no (dispatched (r.0).ofs_type)
    pots : (r.1).pots ≡ read_pots_pmc lib r.0
    tool_life : (r.1).tool_life ≡ read_tool_life lib
    macros : (r.1).macros ≡ read_macros lib skip_macro_vars
    work_offsets : (r.1).work_offsets ≡ []

  read_offsets-Holds :
      (client : Client)
      → Holds
          (λ r. r.1 ≡ offsets_of lib r.0 (r.0).offset_use_no (dispatched (r.0).ofs_type))
          (read_offsets lib client)
  unfolding read_offsets
  read_offsets-Holds client =
      Holds->>= (λ _. Unit {0})
        (λ (r : Client × List OffsetRegister).
          r.1 ≡ offsets_of lib r.0 (r.0).offset_use_no (dispatched (r.0).ofs_type))
        (ensure_layout lib client.offset_use_no client.ofs_type client)
        (λ laid. returned (laid, offsets_of lib laid laid.offset_use_no (dispatched laid.ofs_type)))
        (Holds-any (ensure_layout lib client.offset_use_no client.ofs_type client)) (λ laid _. refl)

  assembled-Holds :
      (machine_id : String) (polled_at : ℕ) (client : Client)
      → Holds IsRead (assembled lib machine_id polled_at client)
  assembled-Holds machine_id polled_at client =
      Holds->>= (λ _. Unit {0}) IsRead (read_status lib) _ (Holds-any (read_status lib))
        λ status _.
          Holds->>= _ IsRead (read_offsets lib client) _ (read_offsets-Holds client) λ read e.
            Holds->>= (λ _. Unit {0}) IsRead (alarms_read lib) _ (Holds-any (alarms_read lib))
              λ _ _. record {
                offsets = e;
                pots = refl;
                tool_life = refl;
                macros = refl;
                work_offsets = refl;
              }

  identified-Holds :
      (machine_id : Option String) (polled_at : ℕ) (client : Client)
      → Holds IsRead (identified lib machine_id polled_at client)
  identified-Holds none polled_at client = tt
  identified-Holds (some machine_id) polled_at client = assembled-Holds machine_id polled_at client

  snapshot-IsRead :
      (polled_at : ℕ) (client : Client) (r : Client × MachineSnapshot)
      → read_snapshot lib polled_at client ≡ returned r
      → IsRead r
  unfolding read_snapshot
  snapshot-IsRead polled_at client r h =
      subst (Holds IsRead) h (identified-Holds client.machine_id polled_at client)

  -- For a control that answers an offset read with the register it was asked for, and that lists no tool
  -- in two slots of its tool life groups: a snapshot that the client returns reads no register bank, pot,
  -- variable, work offset or tool twice, as the mirror requires of a sweep.
  pub read_snapshot-IsSweep :
      (polled_at : ℕ) (client : Client) (r : Client × MachineSnapshot)
      → EchoesOffsets lib
      → ListsOnce lib
      → read_snapshot lib polled_at client ≡ returned r
      → IsSweep r.1
  unfolding Unique
  read_snapshot-IsSweep polled_at client r echo once h =
      let read = snapshot-IsRead polled_at client r h in
      record {
        unique_offsets = subst (Unique offset_key) (sym read.offsets) (
            offsets_of-Unique echo r.0 (r.0).offset_use_no (dispatched (r.0).ofs_type)
              (dispatched-AllTypes (r.0).ofs_type));
        unique_pots = subst (Unique pot_domain.key) (sym read.pots) (read_pots_pmc-Unique r.0);
        unique_macros = subst (Unique macro_domain.key) (sym read.macros) read_macros-Unique;
        unique_work_offsets = subst (Unique work_domain.key) (sym read.work_offsets) tt;
        unique_tool_life =
            subst (Unique life_domain.key) (sym read.tool_life) (read_tool_life-Unique lib once);
      }

  -- Each cell that the sweep asks for shows the answer to its own call.
  pub snapshot_cells :
      (polled_at : ℕ) (client : Client) (r : Client × MachineSnapshot) (use_no : ℤ)
      (types : TypeMap)
      → EchoesOffsets lib
      → read_snapshot lib polled_at client ≡ returned r
      → (r.0).offset_use_no ≡ some use_no
      → dispatched (r.0).ofs_type ≡ some types
      → All
          (λ c. seen offset_key (cell_key c) (r.1).offsets ≡ read_cell lib (r.0).offset_increment c)
          (cells (upward (count_of_range use_no) 1) types)
  snapshot_cells polled_at client r use_no types echo h n t =
      let read = snapshot-IsRead polled_at client r h in
      let whole = read.offsets ∙ ap₂ (offsets_of lib r.0) n t in
      subst
        (λ offs.
          All (λ c. seen offset_key (cell_key c) offs ≡ read_cell lib (r.0).offset_increment c)
            (cells (upward (count_of_range use_no) 1) types))
        (sym whole)
        (seen-gather offset_key cell_key (read_cell lib (r.0).offset_increment)
          (read_cell-Echoes lib (r.0).offset_increment echo)
          (cells (upward (count_of_range use_no) 1) types)
          (cells-Distinct (count_of_range use_no) 1 types
            (subst AllTypes t (dispatched-AllTypes (r.0).ofs_type))))
