-- ===== src/G10.antt =====
-- apps/tooling/api/services/g10.py: an offset table as a G10 program. A text is the list of its code
-- points. `upper` is `str.upper`, a parameter: whatever it gives, only the characters of the punch
-- code are kept. The width of a number and its digits are ASCII.
use Prim.Native.Char.{code}
use pottracker.Prelude.{
  ℕ, zero, suc, ◌+◌, ◌-◌, ◌*◌, ◌/◌, ◌%◌, ◌^◌, String, Bool, true, false, ◌&&◌, ◌||◌, not, Option,
  none, some, List, [], ◌∷◌, ◌++◌, map, if◌then◌else◌, ltb, leb, eqb, ◌==◌, string_eq, nat_eq,
  length,
}
use pottracker.Prelude.Dict.{Dict, lookup}
use pottracker.Decimal.{Decimal, dec_eq, quantize, half_even}
use pottracker.Model.{
  RegisterType, h_geom, h_wear, d_geom, d_wear, x_geom, x_wear, z_geom, z_wear, r_geom, r_wear, tip,
  register_type_eq,
}
use pottracker.G10.Digits.{show_nat, fixed, shifted}
pub mod Blocks
pub mod Digits
pub mod Frame
pub mod Parse
pub mod LatheLines
pub mod Lines
pub mod MillLines
pub mod Numbers
pub mod Reached
pub mod RoundTrip
pub mod Writes

abbrev pub Text : Type 0
Text = List ℕ

unfoldable pub codes : String → Text
codes String.[] = []
codes (String.◌∷◌ c s) = code c ∷ codes s

-- `lookup` of a missing key in the banks of a register, or of a missing register.
abbrev pub Banks : Type 0
Banks = Dict RegisterType Decimal

abbrev pub Rows : Type 0
Rows = Dict ℕ Banks

-- What `[^A-Z0-9 .+/#-]` leaves.
abbrev pub is_punched : ℕ → Bool
is_punched c =
    (leb 65 c && leb c 90)
    || (leb 48 c && leb c 57)
    || eqb c 32
    || eqb c 46
    || eqb c 43
    || eqb c 47
    || eqb c 35
    || eqb c 45

unfoldable pub punched : Text → Text
punched [] = []
punched (c ∷ cs) = (if is_punched c then c else 45) ∷ punched cs

-- `_UNIT_DECIMALS.get`.
unfoldable pub unit_decimals : String → Option ℕ
unit_decimals unit = if unit == "inch" then some 4 else if unit == "mm" then some 3 else none

abbrev pub zero_value : Decimal
zero_value = record { negative = false; digits = 0; places = 0 }

abbrev pub or_zero : Option Decimal → Decimal
or_zero none = zero_value
or_zero (some v) = v

-- The value that `:.{p}f` prints: rounded to even, the sign kept.
abbrev pub rounded : ℕ → Option Decimal → Decimal
rounded p v = quantize half_even (or_zero v) p

abbrev pub sign : Bool → Text
sign true = 45 ∷ []
sign false = []

-- The sign, the whole part, a point and the decimals, of a value that has as many.
unfoldable pub print_value : ℕ → Decimal → Text
unfolding show_nat fixed shifted
print_value p v = sign v.negative ++ (show_nat (shifted p v.digits) ++ (46 ∷ fixed p v.digits))

-- `format_value`, for a unit with so many decimals.
unfoldable pub format_value : ℕ → Option Decimal → Text
unfolding print_value quantize
format_value p v = print_value p (rounded p v)

unfoldable pub register_is_empty : Banks → Bool
unfolding dec_eq
register_is_empty [] = true
register_is_empty ((r, v) ∷ banks) = dec_eq v zero_value && register_is_empty banks

abbrev pub sort_in : ℕ → List ℕ → List ℕ
sort_in n [] = n ∷ []
sort_in n (m ∷ ns) = let rest = sort_in n ns in if leb n m then n ∷ m ∷ ns else m ∷ rest

-- `sorted` of the registers that are not empty.
abbrev pub sparse_registers : Rows → List ℕ
sparse_registers [] = []
sparse_registers ((n, banks) ∷ rows) =
    let rest = sparse_registers rows in if register_is_empty banks then rest else sort_in n rest

-- `range(start, start + count)`.
abbrev pub upward : ℕ → ℕ → List ℕ
upward zero start = []
upward (suc count) start = start ∷ upward count (suc start)

unfoldable pub select_registers : Rows → Bool → ℕ → List ℕ
unfolding register_is_empty
select_registers rows sparse register_count =
    if sparse then sparse_registers rows else upward register_count 1

pub record G10Meta : Type 0 where
  pub machine_name : Text
  pub machine_class : String
  pub unit : String
  pub register_count : ℕ
  pub sparse : Bool
  pub generated_at : Text
  pub mirror_note : Text
  pub form_verified : Bool
  pub program_number : ℕ

-- The two `ValueError`s.
pub data BuildError : Type 0 where
  unknown_unit unknown_class : BuildError

pub data Built {ℓ} (A : Type ℓ) : Type ℓ where
  built : A → Built A
  raised : BuildError → Built A

-- `{n:04d}`.
abbrev pub zeros : ℕ → Text
zeros zero = []
zeros (suc n) = 48 ∷ zeros n

abbrev pub padded : Text → Text
padded ds = zeros (4 - length ds) ++ ds

-- `rows.get(n, {})`.
abbrev pub or_empty : Option Banks → Banks
or_empty none = []
or_empty (some banks) = banks

unfoldable pub banks_of : Rows → ℕ → Banks
unfolding lookup
banks_of rows n = or_empty (lookup n rows)

-- `int(v or 0)`, towards 0: its size, and whether it is below 0.
abbrev pub tip_number : Option Decimal → ℕ
tip_number none = 0
tip_number (some v) = v.digits / 10 ^ v.places

abbrev pub tip_negative : Option Decimal → Bool
tip_negative none = false
tip_negative (some v) = v.negative && ltb 0 (v.digits / 10 ^ v.places)

unfoldable pub tip_text : Option Decimal → Text
unfolding show_nat
tip_text v = sign (tip_negative v) ++ show_nat (tip_number v)

abbrev pub comment : Text → Text
comment body = 40 ∷ (body ++ (41 ∷ []))

abbrev pub coverage_note : G10Meta → ℕ → Text
coverage_note meta count =
    if meta.sparse
    then codes "SPARSE - "
      ++ show_nat count
      ++ codes " OF "
      ++ show_nat meta.register_count
      ++ codes " REGS - UNLISTED REGS UNTOUCHED"
    else codes "FULL TABLE - WRITES ALL "
      ++ show_nat meta.register_count
      ++ codes " REGS INCL ZEROS"

module _ (upper : Text → Text) where
  unfoldable pub comment_text : Text → Text
  unfolding punched
  comment_text text = punched (upper text)

  abbrev pub unverified : Bool → List Text
  unverified true = []
  unverified false =
      comment (comment_text (codes "FORM UNVERIFIED ON THIS MACHINE - DO NOT RUN")) ∷ []

  unfoldable pub header : G10Meta → ℕ → List Text
  unfolding codes show_nat comment_text
  header meta count =
      codes "%"
      ∷ (79
          ∷ (padded (show_nat meta.program_number)
              ++ comment (comment_text (codes "POTTRACKER OFFSET EXPORT"))))
      ∷ comment (comment_text (codes "MACHINE " ++ meta.machine_name))
      ∷ comment (comment_text (codes "GENERATED " ++ meta.generated_at))
      ∷ comment (comment_text meta.mirror_note)
      ∷ comment (comment_text (coverage_note meta count))
      ∷ (unverified meta.form_verified
          ++ (comment (comment_text (codes "UNIT " ++ codes meta.unit))
              ∷ (if meta.unit == "inch" then codes "G20" else codes "G21")
              ∷ []))

abbrev pub mill_banks : List (RegisterType × ℕ)
mill_banks = (h_geom, 48) ∷ (h_wear, 49) ∷ (d_geom, 50) ∷ (d_wear, 51) ∷ []

-- `G10 L1x Pn Rv`, with the last character of the L code.
unfoldable pub mill_line : ℕ → ℕ → Text → Text
unfolding codes show_nat
mill_line l n value = codes "G10 L1" ++ (l ∷ (codes " P" ++ (show_nat n ++ (codes " R" ++ value))))

abbrev pub mill_register : ℕ → ℕ → Banks → List (RegisterType × ℕ) → List Text
mill_register p n banks [] = []
mill_register p n banks ((r, l) ∷ bs) =
    mill_line l n (format_value p (lookup r banks)) ∷ mill_register p n banks bs

unfoldable pub mill_lines : ℕ → Rows → List ℕ → List Text
unfolding mill_line format_value banks_of lookup
mill_lines p rows [] = []
mill_lines p rows (n ∷ ns) = mill_register p n (banks_of rows n) mill_banks ++ mill_lines p rows ns

-- `G10 Pn Xv Zv Rv`.
unfoldable pub lathe_line : ℕ → Text → Text → Text → Text
unfolding codes show_nat
lathe_line n a b c =
    codes "G10 P" ++ (show_nat n ++ (codes " X" ++ (a ++ (codes " Z" ++ (b ++ (codes " R" ++ c))))))

abbrev pub wear_line : ℕ → ℕ → Banks → Text
wear_line p n banks =
    lathe_line n (format_value p (lookup x_wear banks)) (format_value p (lookup z_wear banks))
      (format_value p (lookup r_wear banks))

abbrev pub geom_line : ℕ → ℕ → Banks → Text
geom_line p n banks =
    lathe_line (10000 + n) (format_value p (lookup x_geom banks))
      (format_value p (lookup z_geom banks))
      (format_value p (lookup r_geom banks) ++ (codes " Q" ++ tip_text (lookup tip banks)))

unfoldable pub lathe_lines : ℕ → Rows → List ℕ → List Text
unfolding lathe_line format_value banks_of lookup tip_text codes
lathe_lines p rows [] = []
lathe_lines p rows (n ∷ ns) =
    wear_line p n (banks_of rows n) ∷ geom_line p n (banks_of rows n) ∷ lathe_lines p rows ns

-- A value is printed, and the unit asked for, only where a register is selected.
abbrev pub with_unit : Option ℕ → List ℕ → (ℕ → List Text) → Built (List Text)
with_unit (some p) ns lines = built (lines p)
with_unit none [] lines = built []
with_unit none (n ∷ ns) lines = raised unknown_unit

unfoldable pub body : Rows → G10Meta → List ℕ → Built (List Text)
unfolding mill_lines lathe_lines unit_decimals codes
body rows meta ns =
    let decimals = unit_decimals meta.unit in
    if meta.machine_class == "mill"
    then with_unit decimals ns (λ p. codes "G90" ∷ mill_lines p rows ns)
    else if meta.machine_class == "lathe"
    then with_unit decimals ns (λ p. lathe_lines p rows ns)
    else raised unknown_class

-- `"\n".join(lines) + "\n"`.
unfoldable pub joined : List Text → Text
joined [] = []
joined (line ∷ lines) = line ++ (10 ∷ joined lines)

abbrev pub finished : List Text → Built (List Text) → Built Text
finished head (raised e) = raised e
finished head (built lines) = built (joined (head ++ (lines ++ (codes "M30" ∷ codes "%" ∷ []))))

module _ (upper : Text → Text) where
  unfoldable pub build_g10 : Rows → G10Meta → Built Text
  unfolding header body joined select_registers codes
  build_g10 rows meta =
      let ns = select_registers rows meta.sparse meta.register_count in
      finished (header upper meta (length ns)) (body rows meta ns)
