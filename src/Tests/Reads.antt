-- ===== src/Tests/Reads.antt =====
-- Snapshots of a small control.
use pottracker.Prelude.{
  ℕ, zero, suc, ◌≡◌, refl, sym, ◌∙◌, true, false, none, some, All, [], ◌∷◌, arith, nat_eq,
}
use pottracker.Decimal.{ℤ, pos, negsuc}
use pottracker.Model.{MachineSnapshot, register_key_eq}
use pottracker.Decoders.{decode_status}
use pottracker.Mirror.Loop.{seen}
use pottracker.Mirror.Observed.{IsSweep}
use pottracker.Focas.Library.{Library}
use pottracker.Focas.Reads.{
  Client, is_ok, Answer, returned, failed, memory_b, dispatched, read_offset_layout, read_offsets,
  positive,
}
use pottracker.Focas.Client.{read_snapshot}
use pottracker.Focas.Lathe.{lathe_assembled, read_offsets_lathe, read_status_lathe}
use pottracker.Focas.Tools.{Lists, ListsOnce}
use pottracker.Focas.Swept.{offset_key, EchoesOffsets}
use pottracker.Focas.Snapshot.{read_snapshot-IsSweep}
use pottracker.Focas.Shown.{Shows, read_snapshot-Shows}
use pottracker.Focas.LatheSnapshot.{lathe_assembled-IsSweep}

-- Register 1 rejects the type code 2; register 2 carries no number.
abbrev offset_reply : ℕ → ℕ → ℤ × ℤ × ℤ
offset_reply (suc zero) (suc (suc zero)) = (pos 4, pos 0, pos 0)
offset_reply (suc (suc zero)) code = (pos 0, pos 0, pos 0)
offset_reply num code = (pos 0, pos num, pos 74050)

abbrev library : Library
library = record {
  cnc_sysinfo = (pos 0, "0", "M", "D4F1");
  cnc_statinfo = (pos 0, pos 1, pos 3, pos 0);
  cnc_rdtofsinfo = (pos 0, pos 2, pos 3);
  cnc_rdtofs = offset_reply;
  pmc_rdpmcrng = λ area addr. (pos 0, 49);
  cnc_rdmagazine = λ n. (pos 6, []);
  cnc_rdngrp = (pos 0, pos 1);
  cnc_rdgrpid = λ i. elim i [ suc zero ↦ (pos 0, pos 1) | _ ↦ (pos 5, pos 0) ];
  cnc_rd1tlifedata = λ g slot. elim slot [ suc zero ↦ (pos 0, pos 9) | _ ↦ (pos 5, pos 0) ];
  cnc_rdalmmsg2 = pos 0;
  cnc_rdmacro = λ n. (pos 0, pos 50000, pos 4);
  cnc_exeprgname = (pos 0, pos 9034);
  cnc_rdexecprog = (pos 0, "O9034(3878OR Blank)");
  cnc_rdzofs = λ n. (pos 0, pos 62660, negsuc 4);
  cnc_rdwkcdshft = (pos 0, pos 158365, pos 195044);
  cnc_rdgcode = (pos 0, pos 1, "G56");
  cnc_rdcommand = (pos 0, (77, pos 30) ∷ (84, pos 1224) ∷ []);
}

abbrev client : Client
client = record {
  machine_id = some "viper";
  offset_increment = record { negative = false; digits = 1; places = 4 };
  max_pots = 100;
  pot_count = 2;
  offset_use_no = none;
  ofs_type = none;
}

echoed : (num datano : ℕ) → positive (pos num) ≡ some datano → datano ≡ num
echoed zero datano h = ground arith
echoed (suc n) datano h = ground arith

library-EchoesOffsets : EchoesOffsets library
library-EchoesOffsets zero code datano ok h = ground arith
library-EchoesOffsets (suc zero) zero datano ok h = echoed 1 datano h
library-EchoesOffsets (suc zero) (suc zero) datano ok h = echoed 1 datano h
library-EchoesOffsets (suc zero) (suc (suc zero)) datano ok h = ground arith
library-EchoesOffsets (suc zero) (suc (suc (suc c))) datano ok h = echoed 1 datano h
library-EchoesOffsets (suc (suc zero)) code datano ok h = ground arith
library-EchoesOffsets (suc (suc (suc n))) code datano ok h = echoed (suc (suc (suc n))) datano h

not_ok : is_ok (pos 5) ≡ true → ⊥
not_ok h = ground arith

one_slot : (i slot tool : ℕ) → Lists library i slot tool → (i ≡ 1) × (slot ≡ 1)
one_slot zero slot tool h = absurd (not_ok h.group_read)
one_slot (suc (suc i)) slot tool h = absurd (not_ok h.group_read)
one_slot (suc zero) zero tool h = absurd (not_ok h.slot_read)
one_slot (suc zero) (suc (suc slot)) tool h = absurd (not_ok h.slot_read)
one_slot (suc zero) (suc zero) tool h = (refl, refl)

library-ListsOnce : ListsOnce library
library-ListsOnce i j slot other tool h k =
    let a = one_slot i slot tool h in
    let b = one_slot j other tool k in (a.0 ∙ sym b.0, a.1 ∙ sym b.1)

abbrev laid : Client
laid = record client { offset_use_no = some (pos 3); ofs_type = some (pos 2) }

abbrev taken : Answer (Client × MachineSnapshot) → MachineSnapshot → Client × MachineSnapshot
taken (returned r) other = r
taken (failed e) other = (laid, other)

abbrev blank : MachineSnapshot
blank = record {
  machine_id = "";
  polled_at = 0;
  status = decode_status (pos 0) (pos 0) (pos 0);
  offsets = [];
  pots = [];
  tool_life = [];
  macros = [];
  work_offsets = [];
}

read_snapshot-returns :
    read_snapshot library 10 client ≡ returned (taken (read_snapshot library 10 client) blank)
unfolding read_snapshot read_offsets
read_snapshot-returns = refl

laid_out :
    let r = taken (read_snapshot library 10 client) blank in
    (r.0.offset_use_no ≡ some (pos 3)) × (dispatched r.0.ofs_type ≡ some memory_b)
unfolding read_snapshot read_offsets
laid_out = (refl, refl)

lathe-returns :
    lathe_assembled library "vt" 10 client
    ≡ returned (taken (lathe_assembled library "vt" 10 client) blank)
unfolding read_offsets_lathe read_status_lathe read_offset_layout
lathe-returns = refl

read_snapshot-IsSweep_example : IsSweep (taken (read_snapshot library 10 client) blank).1
read_snapshot-IsSweep_example =
    read_snapshot-IsSweep library 10 client (taken (read_snapshot library 10 client) blank)
      library-EchoesOffsets library-ListsOnce read_snapshot-returns

read_snapshot-Shows_example :
    let r = taken (read_snapshot library 10 client) blank in
    All
      (λ t.
        Shows
          (library.cnc_rdtofs 3 t.0)
          3
          t.1
          (r.0).offset_increment
          (seen offset_key (3, t.1) (r.1).offsets))
      memory_b
read_snapshot-Shows_example =
    read_snapshot-Shows library 10 client (taken (read_snapshot library 10 client) blank) 3 memory_b
      library-EchoesOffsets read_snapshot-returns laid_out.0 laid_out.1 3 (omega arith)
      (omega arith)

lathe_assembled-IsSweep_example : IsSweep (taken (lathe_assembled library "vt" 10 client) blank).1
lathe_assembled-IsSweep_example =
    lathe_assembled-IsSweep library "vt" 10 client
      (taken (lathe_assembled library "vt" 10 client) blank) library-EchoesOffsets lathe-returns
