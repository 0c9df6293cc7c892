-- ===== src/Decoders.antt =====
-- shared/focas/decoders.py: from the integers of the control's structs to the models. A field of a
-- struct is a signed integer, which `int()` reads; the fields of text are not modelled.
pub mod Pots
pub mod Status
pub mod Offsets
use pottracker.Prelude.{
  ℕ, ◌+◌, ◌-◌, ◌*◌, ◌/◌, ◌%◌, ◌^◌, Bool, true, false, ◌&&◌, ◌||◌, not, Option, none, some, ltb, leb,
  eqb, if◌then◌else◌, ◌==◌, suc,
}
use pottracker.Decimal.{Decimal, ℤ, pos, negsuc, to_decimal, half_even, quantize}
use pottracker.Model.{
  RegisterType, h_geom, h_wear, d_geom, d_wear, MachineMode, mdi, mem, edit, hnd, jog, ref, auto,
  unknown, MachineStatus, OffsetRegister, PotEntry, machine_mode_eq, MachineMode-discrete,
}

-- The maps from a type code to the register type, one for each memory model; `none` is a missing key.
unfoldable pub offset_type_map_memory_a : ℕ → Option RegisterType
offset_type_map_memory_a code = if eqb code 1 then some h_geom else none

pub offset_type_map_memory_b : ℕ → Option RegisterType
offset_type_map_memory_b code =
    if eqb code 0
    then some d_wear
    else if eqb code 1
    then some d_geom
    else if eqb code 2
    then some h_wear
    else if eqb code 3
    then some h_geom
    else none

unfoldable pub offset_type_map_memory_c : ℕ → Option RegisterType
offset_type_map_memory_c code =
    if eqb code 1
    then some h_geom
    else if eqb code 2
    then some h_wear
    else if eqb code 3
    then some d_geom
    else if eqb code 4
    then some d_wear
    else none

-- `_AUT_TO_MODE.get(aut, MachineMode.UNKNOWN)`.
aut_to_mode : ℤ → MachineMode
aut_to_mode (negsuc n) = unknown
aut_to_mode (pos n) =
    if eqb n 0
    then mdi
    else if eqb n 1
    then mem
    else if eqb n 3
    then edit
    else if eqb n 4
    then hnd
    else if eqb n 5
    then jog
    else if eqb n 9
    then ref
    else unknown

-- `n <= run`, for a bound that is no negative number.
abbrev pub at_least : ℕ → ℤ → Bool
at_least n (pos m) = leb n m
at_least n (negsuc m) = false

abbrev non_zero : ℤ → Bool
non_zero (pos n) = ltb 0 n
non_zero (negsuc n) = true

-- The fields `aut`, `run` and `emergency` of an ODBST.
pub decode_status : ℤ → ℤ → ℤ → MachineStatus
unfolding aut_to_mode MachineMode-discrete
decode_status aut run emergency =
    let mode = aut_to_mode aut in
    let is_program_running = at_least 2 run in
    record {
      mode = if (mode == mem) && is_program_running then auto else mode;
      running = is_program_running;
      emergency_stop = non_zero emergency;
      current_t_number = none;
      next_t_number = none;
      active_wcs = none;
      program_number = none;
      program_name = none;
    }

-- The fields `datano` and `data` of an ODBTOFS. The increment has as many places as it says.
unfoldable pub decode_offset : ℕ → ℤ → RegisterType → Decimal → OffsetRegister
unfolding quantize
decode_offset datano data_counts register_type increment =
    let raw = to_decimal data_counts in
    record {
      register_number = datano;
      register_type = register_type;
      value_mm =
          quantize half_even
            (record {
              negative = if raw.negative then not increment.negative else increment.negative;
              digits = raw.digits * increment.digits;
              places = increment.places;
            })
            4;
    }

-- The fields `pot` and `tool_index` of an IODBTLMAG.
unfoldable pub decode_pot : ℕ → ℤ → PotEntry
decode_pot pot tool_index = record {
  pot_number = pot;
  t_number = elim tool_index [ pos n ↦ (if ltb 0 n then some n else none) | negsuc n ↦ none ];
}

-- A byte of the PMC, a value below 256.
pub decode_pot_bcd : ℕ → Option ℕ
decode_pot_bcd raw =
    let hi = raw / 2 ^ 4 % 16 in
    let lo = raw % 16 in
    let tool = hi * 10 + lo in
    if ltb 9 hi || ltb 9 lo then none else if ltb 0 tool then some tool else none

-- The fields `mcr_val` and `dec_val` of an ODBM.
unfoldable pub decode_macro : ℤ → ℤ → Option Decimal
decode_macro mcr_val (negsuc n) = none
decode_macro mcr_val (pos dec_val) = some (record (to_decimal mcr_val) { places = dec_val })
