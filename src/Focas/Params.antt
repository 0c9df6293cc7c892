-- ===== src/Focas/Params.antt =====
-- shared/focas/params.py: what a control says of its own units. What its parameter calls store is a
-- parameter of the model: a return code and the bytes of `cdatas`, signed, of which the first is `cdata`.
use pottracker.Prelude.{
  ℕ, ◌+◌, ◌-◌, ◌/◌, ◌%◌, String, Bool, true, false, Option, none, some, List, [], ◌∷◌, map,
  if◌then◌else◌, eqb, leb, ◌==◌, string_eq,
}
use pottracker.Decimal.{Decimal, ℤ, pos, negsuc}
use pottracker.Focas.{FocasError, Raised, passed, raised, raise_for_code}
use pottracker.Focas.Reads.{upward, count_of_range}

abbrev pub Bytes : Type 0
Bytes = ℤ × (ℕ → ℤ)

pub record Parameters : Type 0 where
  -- by number, axis and length
  pub cnc_rdparam : ℕ → ℤ → ℕ → Bytes
  pub cnc_rdset : ℕ → ℤ → ℕ → Bytes

-- What a read gives back or raises: the control's error, an IndexError or a KeyError.
pub data Reading {ℓ} (A : Type ℓ) : Type ℓ where
  read : A → Reading A
  refused : FocasError → Reading A
  index_error key_error : Reading A

infixl 1 ◌>>=◌
abbrev pub ◌>>=◌ {ℓ κ} : {A : Type ℓ} {B : Type κ} → Reading A → (A → Reading B) → Reading B
read a >>= f = f a
refused e >>= f = refused e
index_error >>= f = index_error
key_error >>= f = key_error

abbrev guarded {ℓ} : {A : Type ℓ} → Raised → Reading A → Reading A
guarded passed r = r
guarded (raised e) r = refused e

abbrev pub parameter_increment_system : ℕ
parameter_increment_system = 1013

abbrev pub parameter_machine_system : ℕ
parameter_machine_system = 1001

abbrev pub setting_input_unit : ℕ
setting_input_unit = 0

abbrev pub all_axes : ℤ
all_axes = negsuc 0

abbrev pub max_axis : ℕ
max_axis = 32

-- `b & 0xFF`.
unfoldable pub unsigned_byte : ℤ → ℕ
unsigned_byte (pos n) = n % 256
unsigned_byte (negsuc n) = 255 - n % 256

-- `byte & mask` as a truth value, for the mask that is this power of two.
unfoldable pub has_bit : ℕ → ℕ → Bool
has_bit byte mask = eqb (byte / mask % 2) 1

unfoldable pub decode_is_system : ℕ → String
unfolding has_bit
decode_is_system byte =
    if has_bit byte 1
    then "IS-A"
    else if has_bit byte 2
    then "IS-C"
    else if has_bit byte 4
    then "IS-D"
    else if has_bit byte 8
    then "IS-E"
    else "IS-B"

abbrev one_at : ℕ → Option Decimal
one_at places = some (record { negative = false; digits = 1; places = places })

-- `_INCREMENT[inch_input][is_system]`, with nothing for a KeyError.
unfoldable pub increment_for : String → Bool → Option Decimal
increment_for system true =
    if system == "IS-A"
    then one_at 3
    else if system == "IS-B"
    then one_at 4
    else if system == "IS-C"
    then one_at 5
    else if system == "IS-D"
    then one_at 6
    else if system == "IS-E"
    then one_at 7
    else none
increment_for system false =
    if system == "IS-A"
    then one_at 2
    else if system == "IS-B"
    then one_at 3
    else if system == "IS-C"
    then one_at 4
    else if system == "IS-D"
    then one_at 5
    else if system == "IS-E"
    then one_at 6
    else none

pub record IncrementSystem : Type 0 where
  pub inch_input : Bool
  pub inch_machine : Bool
  pub p1013_per_axis : List ℕ
  pub is_system_per_axis : List String
  pub increment : Decimal

abbrev all_are : String → List String → Bool
all_are s [] = true
all_are s (t ∷ ts) = if t == s then all_are s ts else false

-- `IncrementSystem.uniform`: the set of the systems has at most one element.
unfoldable pub uniform : IncrementSystem → Bool
uniform s = elim s.is_system_per_axis [ [] ↦ true | t ∷ ts ↦ all_are t ts ]

unfoldable pub read_parameter_byte : Parameters → ℕ → Reading ℕ
unfolding unsigned_byte raise_for_code
read_parameter_byte lib number =
    let r = lib.cnc_rdparam number (pos 0) 5 in
    guarded (raise_for_code r.0 "cnc_rdparam") (read (unsigned_byte (r.1 0)))

unfoldable pub read_setting_byte : Parameters → ℕ → Reading ℕ
unfolding unsigned_byte raise_for_code
read_setting_byte lib number =
    let r = lib.cnc_rdset number (pos 0) 5 in
    guarded (raise_for_code r.0 "cnc_rdset") (read (unsigned_byte (r.1 0)))

-- The array has 32 bytes, so an axis past them is an IndexError.
unfoldable pub read_parameter_axis_bytes : Parameters → ℕ → ℤ → Reading (List ℕ)
unfolding unsigned_byte raise_for_code upward
read_parameter_axis_bytes lib number axis_count =
    let r = lib.cnc_rdparam number all_axes (4 + max_axis) in
    let n = count_of_range axis_count in
    guarded (raise_for_code r.0 "cnc_rdparam")
      (if leb n max_axis then read (map (λ i. unsigned_byte (r.1 i)) (upward n 0)) else index_error)

abbrev pub looked_up : Option Decimal → Reading Decimal
looked_up none = key_error
looked_up (some d) = read d

-- `systems[0]`, and the look-up of its increment.
abbrev first_increment : List String → Bool → Reading Decimal
first_increment [] inch = index_error
first_increment (s ∷ ss) inch = looked_up (increment_for s inch)

unfoldable pub read_increment_system : Parameters → ℤ → Reading IncrementSystem
unfolding read_setting_byte read_parameter_byte read_parameter_axis_bytes decode_is_system
    increment_for has_bit
read_increment_system lib axis_count = do
  setting ← read_setting_byte lib setting_input_unit
  machine ← read_parameter_byte lib parameter_machine_system
  p1013 ← read_parameter_axis_bytes lib parameter_increment_system axis_count
  let inch_input = has_bit setting 4
  let systems = map decode_is_system p1013
  increment ← first_increment systems inch_input
  read (record {
    inch_input = inch_input;
    inch_machine = has_bit machine 1;
    p1013_per_axis = p1013;
    is_system_per_axis = systems;
    increment = increment;
  })
