-- ===== src/Focas/Reads.antt =====
-- shared/focas/client_reads.py and the reads of shared/focas/client.py. The range checks of the models
-- that the readings are put in, and the alarms, are not modelled.
use Prim.Native.Char.{code}
use pottracker.Prelude.{
  ℕ, zero, suc, ◌+◌, String, Bool, true, false, Option, none, some, List, [], ◌∷◌, ◌++◌, map,
  if◌then◌else◌, eqb,
}
use pottracker.Decimal.{Decimal, ℤ, pos, negsuc}
use pottracker.Model.{
  RegisterType, h_geom, h_wear, d_geom, d_wear, OffsetRegister, PotEntry, MacroVariable, ToolLife,
  ToolLifeStatus,
}
use pottracker.Decoders.{decode_offset, decode_pot, decode_pot_bcd, decode_macro}
use pottracker.Focas.{FocasError, Raised, passed, raised, raise_for_code}
use pottracker.Focas.Library.{Library}
use pottracker.Focas.Sweep.{gather}

-- The attributes of a `FocasClient` that its reads use.
pub record Client : Type 0 where
  pub machine_id : Option String
  pub offset_increment : Decimal
  pub max_pots : ℕ
  pub pot_count : ℕ
  pub offset_use_no : Option ℤ
  pub ofs_type : Option ℤ

pub data Answer {ℓ} (A : Type ℓ) : Type ℓ where
  returned : A → Answer A
  failed : FocasError → Answer A

abbrev pub guarded {ℓ} : {A : Type ℓ} → Raised → A → Answer A
guarded passed a = returned a
guarded (raised e) a = failed e

infixl 1 ◌>>=◌
abbrev pub ◌>>=◌ {ℓ κ} : {A : Type ℓ} {B : Type κ} → Answer A → (A → Answer B) → Answer B
returned a >>= f = f a
failed e >>= f = failed e

abbrev pub is_ok : ℤ → Bool
is_ok (pos n) = eqb n 0
is_ok (negsuc n) = false

-- EW_NOOPT.
abbrev pub is_noopt : ℤ → Bool
is_noopt (pos n) = eqb n 6
is_noopt (negsuc n) = false

-- `n > 0`, for an integer of the control, with the number it is then.
abbrev pub positive : ℤ → Option ℕ
positive (pos zero) = none
positive (pos (suc n)) = some (suc n)
positive (negsuc n) = none

-- `range(start, start + count)`.
unfoldable pub upward : ℕ → ℕ → List ℕ
upward zero start = []
upward (suc count) start = start ∷ upward count (suc start)

abbrev pub count_of_range : ℤ → ℕ
count_of_range (pos n) = n
count_of_range (negsuc n) = 0

-- The items of the type maps, in their order: code and type.
abbrev pub TypeMap : Type 0
TypeMap = List (ℕ × RegisterType)

abbrev pub memory_a : TypeMap
memory_a = (1, h_geom) ∷ []

abbrev pub memory_b : TypeMap
memory_b = (0, d_wear) ∷ (1, d_geom) ∷ (2, h_wear) ∷ (3, h_geom) ∷ []

abbrev pub memory_c : TypeMap
memory_c = (1, h_geom) ∷ (2, h_wear) ∷ (3, d_geom) ∷ (4, d_wear) ∷ []

-- `_OFS_TYPE_DISPATCH.get`.
unfoldable pub ofs_type_dispatch : ℤ → Option TypeMap
ofs_type_dispatch (negsuc n) = none
ofs_type_dispatch (pos n) =
    if eqb n 1
    then some memory_a
    else if eqb n 2
    then some memory_b
    else if eqb n 3
    then some memory_c
    else none

-- A register and one of its banks, as the sweep asks for it.
pub record Cell : Type 0 where
  pub num : ℕ
  pub type_code : ℕ
  pub register_type : RegisterType

abbrev pub banks_of : ℕ → TypeMap → List Cell
banks_of num [] = []
banks_of num ((code, r) ∷ types) =
    (record { num = num; type_code = code; register_type = r }) ∷ banks_of num types

-- The two nested loops of the sweep, as one list.
unfoldable pub cells : List ℕ → TypeMap → List Cell
cells [] types = []
cells (num ∷ nums) types = banks_of num types ++ cells nums types

-- `decode_offset`, when the call went well and its answer carries a register number.
abbrev pub answered : Bool → Option ℕ → ℤ → RegisterType → Decimal → Option OffsetRegister
answered true (some datano) raw register_type increment =
    some (decode_offset datano raw register_type increment)
answered _ _ raw register_type increment = none

unfoldable pub dispatched : Option ℤ → Option TypeMap
unfolding ofs_type_dispatch
dispatched none = none
dispatched (some t) = ofs_type_dispatch t

abbrev pub pot_entry : ℕ → Option ℕ → Option PotEntry
pot_entry pot_number none = none
pot_entry pot_number (some raw) =
    some (record { pot_number = pot_number; t_number = decode_pot_bcd raw })

abbrev pub macro_of : ℕ → Answer (Option Decimal) → Option MacroVariable
macro_of number (returned value) = some (record { number = number; value = value })
macro_of number (failed e) = none

module _ (lib : Library) where
  -- The cached layout.
  unfoldable pub read_offset_layout : Client → Answer Client
  unfolding raise_for_code
  read_offset_layout client =
      let (rc, ofs_type, use_no) = lib.cnc_rdtofsinfo in
      guarded (raise_for_code rc "cnc_rdtofsinfo")
        (record client { offset_use_no = some use_no; ofs_type = some ofs_type })

  abbrev pub ensure_layout : Option ℤ → Option ℤ → Client → Answer Client
  ensure_layout (some use_no) (some ofs_type) client = returned client
  ensure_layout _ _ client = read_offset_layout client

  unfoldable pub read_cell : Decimal → Cell → Option OffsetRegister
  read_cell increment c =
      let (rc, datano, raw) = lib.cnc_rdtofs c.num c.type_code in
      answered (is_ok rc) (positive datano) raw c.register_type increment

  abbrev pub offsets_of : Client → Option ℤ → Option TypeMap → List OffsetRegister
  offsets_of client (some use_no) (some types) =
      gather (read_cell client.offset_increment) (cells (upward (count_of_range use_no) 1) types)
  offsets_of client _ _ = []

  unfoldable pub read_offsets : Client → Answer (Client × List OffsetRegister)
  unfolding read_offset_layout read_cell dispatched cells upward gather
  read_offsets client = do
    laid ← ensure_layout client.offset_use_no client.ofs_type client
    returned (laid, offsets_of laid laid.offset_use_no (dispatched laid.ofs_type))

  -- `_read_pmc_byte`.
  abbrev pub read_pmc_byte : ℕ → ℕ → Option ℕ
  read_pmc_byte area addr =
      let (rc, byte) = lib.pmc_rdpmcrng area addr in if is_ok rc then some byte else none

  unfoldable pub read_pot : ℕ → Option PotEntry
  read_pot i = pot_entry (i + 1) (read_pmc_byte 9 (105 + i))

  unfoldable pub read_pots_pmc : Client → List PotEntry
  unfolding read_pot upward gather
  read_pots_pmc client = gather read_pot (upward client.pot_count 0)

  pub read_pots_magazine : Client → Answer (List PotEntry)
  unfolding raise_for_code decode_pot
  read_pots_magazine client =
      let (rc, entries) = lib.cnc_rdmagazine client.max_pots in
      if is_noopt rc
      then returned []
      else guarded (raise_for_code rc "cnc_rdmagazine") (map (λ e. decode_pot e.0 e.1) entries)

  abbrev pub decode_tool_life : ℕ → ToolLife
  decode_tool_life tool_num = record {
    t_number = tool_num;
    life_count = none;
    life_max = none;
    status = some ToolLifeStatus.live;
  }

  -- The slots of a group, until a call fails or one holds no tool; at most so many.
  unfoldable pub read_slots : ℤ → ℕ → ℕ → List ToolLife
  read_slots group zero slot = []
  read_slots group (suc left) slot =
      let rest = read_slots group left (suc slot) in
      let (rc, tool_num) = lib.cnc_rd1tlifedata group slot in
      if is_ok rc
      then elim (positive tool_num) [ none ↦ [] | some t ↦ decode_tool_life t ∷ rest ]
      else []

  abbrev pub read_group : ℕ → List ToolLife
  read_group index =
      let (rc, group) = lib.cnc_rdgrpid index in if is_ok rc then read_slots group 64 1 else []

  unfoldable pub read_groups : List ℕ → List ToolLife
  unfolding read_slots
  read_groups [] = []
  read_groups (index ∷ indices) = read_group index ++ read_groups indices

  -- The call of `cnc_rdusegrpid` is logged only.
  unfoldable pub read_tool_life : List ToolLife
  unfolding read_groups upward
  read_tool_life =
      let (rc, count) = lib.cnc_rdngrp in
      if is_ok rc then read_groups (upward (count_of_range count) 1) else []

  unfoldable pub read_macro : ℕ → Answer (Option Decimal)
  unfolding raise_for_code decode_macro
  read_macro number =
      let (rc, mcr_val, dec_val) = lib.cnc_rdmacro number in
      guarded (raise_for_code rc "cnc_rdmacro") (decode_macro mcr_val dec_val)

  unfoldable pub macro_entry : ℕ → Option MacroVariable
  unfolding read_macro
  macro_entry number = macro_of number (read_macro number)

  unfoldable pub read_macros : List ℕ → List MacroVariable
  unfolding macro_entry gather
  read_macros numbers = gather macro_entry numbers

abbrev pub skip_macro_vars : List ℕ
skip_macro_vars = 5061 ∷ 5062 ∷ 5063 ∷ []

-- A property of what a read returns, if it returns.
abbrev pub Holds {ℓ κ} : {A : Type ℓ} → (A → Type κ) → Answer A → Type κ
Holds P (returned a) = P a
Holds P (failed e) = Unit

pub Holds->>= {ℓ κ μ ν} :
    {A : Type ℓ} {B : Type κ} (P : A → Type μ) (Q : B → Type ν) (a : Answer A) (f : A → Answer B)
    → Holds P a
    → ((x : A) → P x → Holds Q (f x))
    → Holds Q (a >>= f)
Holds->>= P Q (returned a) f h k = k a h
Holds->>= P Q (failed e) f h k = tt

pub Holds-any {ℓ} : {A : Type ℓ} (a : Answer A) → Holds (λ _. Unit {0}) a
Holds-any (returned a) = tt
Holds-any (failed e) = tt
