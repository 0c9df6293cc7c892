-- ===== src/Focas/Lathe.antt =====
-- shared/focas/lathe.py: the read profile of the lathe, and the running program of client_reads.py, whose
-- digits are the ASCII ones. Of the program's name only the text up to its first `)` is kept, as the
-- pattern of the source does.
use Prim.Native.Char.{Char, code}
use pottracker.Prelude.{
  ℕ, zero, suc, ◌+◌, ◌-◌, ◌*◌, String, Bool, true, false, ◌&&◌, not, Option, none, some, List, [],
  ◌∷◌, if◌then◌else◌, leb, eqb, ◌==◌, string_eq,
}
use pottracker.Decimal.{Decimal, ℤ, pos, to_decimal}
use pottracker.Text.{strip, lstrip}
use pottracker.Model.{
  RegisterType, x_geom, x_wear, z_geom, z_wear, r_geom, r_wear, tip, OffsetRegister, WorkOffsetSlot,
  work_shift, ext, g54, g55, g56, g57, g58, g59, Axis, x, z, WorkOffsetEntry, MachineStatus,
  MachineSnapshot, register_type_eq,
}
use pottracker.Decoders.{decode_status, decode_offset}
use pottracker.Focas.{raise_for_code}
use pottracker.Focas.Library.{Library}
use pottracker.Focas.Sweep.{gather}
use pottracker.Focas.Reads.{
  Client, Answer, returned, guarded, ◌>>=◌, is_ok, positive, Cell, TypeMap, cells, upward,
  count_of_range, read_offset_layout,
}

abbrev pub lathe_type_map : TypeMap
lathe_type_map =
    (0, x_wear)
    ∷ (1, x_geom)
    ∷ (2, z_wear)
    ∷ (3, z_geom)
    ∷ (4, r_wear)
    ∷ (5, r_geom)
    ∷ (6, tip)
    ∷ []

-- The tip is a code, never scaled.
abbrev pub lathe_register : ℕ → ℤ → RegisterType → Decimal → OffsetRegister
lathe_register datano raw tip increment = record {
  register_number = datano;
  register_type = tip;
  value_mm = to_decimal raw;
}
lathe_register datano raw register_type increment = decode_offset datano raw register_type increment

abbrev pub lathe_answered : Bool → Option ℕ → ℤ → RegisterType → Decimal → Option OffsetRegister
lathe_answered true (some datano) raw register_type increment =
    some (lathe_register datano raw register_type increment)
lathe_answered _ _ raw register_type increment = none

-- `Decimal(n) * increment`.
abbrev pub scaled_by : Decimal → ℤ → Decimal
scaled_by increment n =
    let raw = to_decimal n in
    record {
      negative = if raw.negative then not increment.negative else increment.negative;
      digits = raw.digits * increment.digits;
      places = increment.places;
    }

abbrev pub on_axis : Axis → ℤ → ℤ → ℤ
on_axis x a b = a
on_axis z a b = b

abbrev pub work_slots : List WorkOffsetSlot
work_slots = ext ∷ g54 ∷ g55 ∷ g56 ∷ g57 ∷ g58 ∷ g59 ∷ work_shift ∷ []

abbrev pub axes_of : List WorkOffsetSlot → List (WorkOffsetSlot × Axis)
axes_of [] = []
axes_of (slot ∷ slots) = (slot, x) ∷ (slot, z) ∷ axes_of slots

-- `stripped or None`.
abbrev pub or_none : String → Option String
or_none s = if s == "" then none else some s

abbrev is_digit : ℕ → Bool
is_digit c = leb 48 c && leb c 57

-- The number before a `(`, and what follows that: the digits before, and whether there were any.
number_then_paren : ℕ → Bool → String → Option (ℕ × String)
number_then_paren n some_digit String.[] = none
number_then_paren n some_digit (String.◌∷◌ c s) =
    let rest = number_then_paren (n * 10 + (code c - 48)) true s in
    if is_digit (code c) then rest else if some_digit && eqb (code c) 40 then some (n, s) else none

abbrev followed : Char → Option String → Option String
followed c none = none
followed c (some s) = some (String.◌∷◌ c s)

-- The text before the next `)`, of at most so many characters and no new line.
before_paren : ℕ → String → Option String
before_paren left String.[] = none
before_paren zero (String.◌∷◌ c s) = if eqb (code c) 41 then some String.[] else none
before_paren (suc left) (String.◌∷◌ c s) =
    let rest = followed c (before_paren left s) in
    if eqb (code c) 41 then some String.[] else if eqb (code c) 10 then none else rest

-- One character at least, which may be a `)` itself.
abbrev comment_body : String → Option String
comment_body String.[] = none
comment_body (String.◌∷◌ c s) = if eqb (code c) 10 then none else followed c (before_paren 63 s)

abbrev named : Option String → Option String
named none = none
named (some comment) = or_none (strip comment)

abbrev comment_of : ℕ → Option (ℕ × String) → Option String
comment_of o_num none = none
comment_of o_num (some (n, rest)) = if eqb n o_num then named (comment_body rest) else none

abbrev after_o : ℕ → String → Option String
after_o o_num String.[] = none
after_o o_num (String.◌∷◌ c s) =
    if eqb (code c) 79 then comment_of o_num (number_then_paren 0 false s) else none

unfoldable pub parse_program_comment : String → ℕ → Option String
unfolding number_then_paren before_paren
parse_program_comment text o_num = after_o o_num (lstrip text)

-- `value or None`.
abbrev or_absent : ℤ → Option ℤ
or_absent (pos zero) = none
or_absent value = some value

-- The first word whose address is `T`, unless it is 0.
abbrev pub first_t : List (ℕ × ℤ) → Option ℤ
first_t [] = none
first_t ((adrs, value) ∷ words) =
    let rest = first_t words in if eqb adrs 84 then or_absent value else rest

-- The word as a status holds it: the model's status has no place for a negative one.
abbrev t_number : Option ℤ → Option ℕ
t_number none = none
t_number (some word) = positive word

module _ (lib : Library) where
  unfoldable pub read_lathe_cell : Decimal → Cell → Option OffsetRegister
  read_lathe_cell increment c =
      let (rc, datano, raw) = lib.cnc_rdtofs c.num c.type_code in
      lathe_answered (is_ok rc) (positive datano) raw c.register_type increment

  abbrev pub lathe_offsets_of : Client → Option ℤ → List OffsetRegister
  lathe_offsets_of client none = []
  lathe_offsets_of client (some use_no) =
      gather (read_lathe_cell client.offset_increment)
        (cells (upward (count_of_range use_no) 1) lathe_type_map)

  -- The layout is read each time.
  unfoldable pub read_offsets_lathe : Client → Answer (Client × List OffsetRegister)
  unfolding read_lathe_cell cells upward gather
  read_offsets_lathe client = do
    laid ← read_offset_layout lib client
    returned (laid, lathe_offsets_of laid laid.offset_use_no)

  -- The call for a slot: `cnc_rdzofs` with its number, or the work shift's own.
  abbrev pub work_reply : WorkOffsetSlot → ℤ × ℤ × ℤ
  work_reply ext = lib.cnc_rdzofs 0
  work_reply g54 = lib.cnc_rdzofs 1
  work_reply g55 = lib.cnc_rdzofs 2
  work_reply g56 = lib.cnc_rdzofs 3
  work_reply g57 = lib.cnc_rdzofs 4
  work_reply g58 = lib.cnc_rdzofs 5
  work_reply g59 = lib.cnc_rdzofs 6
  work_reply work_shift = lib.cnc_rdwkcdshft

  abbrev pub work_entry : Decimal → WorkOffsetSlot × Axis → Option WorkOffsetEntry
  work_entry increment (slot, axis) =
      let (rc, a, b) = work_reply slot in
      if is_ok rc
      then some
          (record { slot = slot; axis = axis; value = scaled_by increment (on_axis axis a b) })
      else none

  unfoldable pub read_work_offsets_lathe : Client → List WorkOffsetEntry
  unfolding gather
  read_work_offsets_lathe client = gather (work_entry client.offset_increment) (axes_of work_slots)

  abbrev pub read_active_wcs : Option String
  read_active_wcs =
      let (rc, num, text) = lib.cnc_rdgcode in
      elim (positive num) [ none ↦ none | some n ↦ if is_ok rc then or_none (strip text) else none ]

  abbrev pub read_commanded_t : Option ℤ
  read_commanded_t = let (rc, words) = lib.cnc_rdcommand in if is_ok rc then first_t words else none

  -- The number and the name of the program under execution.
  abbrev pub read_program_info : Option ℕ × Option String
  read_program_info =
      let (rc, o_num) = lib.cnc_exeprgname in
      let (rc_text, text) = lib.cnc_rdexecprog in
      if is_ok rc
      then elim (positive o_num) [
        | none ↦ (none, none)
        | some n ↦ (some n, if is_ok rc_text then parse_program_comment text n else none)
      ]
      else (none, none)

  unfoldable pub read_status_lathe : Answer MachineStatus
  unfolding raise_for_code parse_program_comment
  read_status_lathe =
      let (rc, aut, run, emergency) = lib.cnc_statinfo in
      guarded (raise_for_code rc "cnc_statinfo") (record (decode_status aut run emergency) {
        active_wcs = read_active_wcs;
        current_t_number = t_number read_commanded_t;
        program_number = read_program_info.0;
        program_name = read_program_info.1;
      })

  abbrev pub lathe_assembled : String → ℕ → Client → Answer (Client × MachineSnapshot)
  lathe_assembled machine_id polled_at client = do
    status ← read_status_lathe
    read ← read_offsets_lathe client
    returned (
      read.0,
      (record {
        machine_id = machine_id;
        polled_at = polled_at;
        status = status;
        offsets = read.1;
        pots = [];
        tool_life = [];
        macros = [];
        work_offsets = read_work_offsets_lathe read.0;
      }),
    )

  abbrev pub status_only : String → ℕ → Client → Answer (Client × MachineSnapshot)
  status_only machine_id polled_at client = do
    status ← read_status_lathe
    returned (
      client,
      (record {
        machine_id = machine_id;
        polled_at = polled_at;
        status = status;
        offsets = [];
        pots = [];
        tool_life = [];
        macros = [];
        work_offsets = [];
      }),
    )
