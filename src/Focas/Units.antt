-- ===== src/Focas/Units.antt =====
-- What shared/focas/params.py makes of a control's answers, and the decimals that
-- apps/tooling/api/services/g10.py prints.
use pottracker.Prelude.{
  ℕ, zero, suc, ◌≤◌, ◌<◌, ◌%◌, ◌≡◌, ◌↔◌, ◌⊎◌, refl, ap, String, Bool, true, false, Option, some,
  map, arith, leb, le→leb, leb→le, Bool-cases, if_elim, string_dec, inl, inr,
}
use pottracker.Decimal.{Decimal, ℤ, pos, negsuc}
use pottracker.Focas.{FocasError, raise_for_code, raised}
use pottracker.Focas.Reads.{upward, count_of_range}
use pottracker.Focas.Params.{
  Parameters, Bytes, read, refused, index_error, unsigned_byte, has_bit, decode_is_system,
  increment_for, IncrementSystem, read_parameter_byte, read_setting_byte, read_parameter_axis_bytes,
  read_increment_system, looked_up, ◌>>=◌,
}
use pottracker.G10.{unit_decimals}

abbrev one_at : ℕ → Decimal
one_at p = record { negative = false; digits = 1; places = p }

decode_is_system-Isb : (b : ℕ) → b % 16 ≡ 0 → decode_is_system b ≡ "IS-B"
unfolding decode_is_system has_bit
decode_is_system-Isb b h = ground arith

-- An increment is one of a decimal place.
abbrev IsKnown : Option Decimal → Type 0
IsKnown d = (p : ℕ) × (d ≡ some (one_at p))

named-IsKnown :
    (P : String → Type 0)
    → P "IS-A"
    → P "IS-B"
    → P "IS-C"
    → P "IS-D"
    → P "IS-E"
    → (b : ℕ) → P (decode_is_system b)
unfolding decode_is_system
named-IsKnown P a b c d e byte =
    if_elim P (has_bit byte 1) (λ _. a)
      (λ _.
        if_elim P (has_bit byte 2) (λ _. c)
          (λ _.
            if_elim P (has_bit byte 4) (λ _. d)
              (λ _. if_elim P (has_bit byte 8) (λ _. e) (λ _. b))))

increment_for-IsKnown : (b : ℕ) (inch : Bool) → IsKnown (increment_for (decode_is_system b) inch)
unfolding increment_for string_dec
increment_for-IsKnown b true =
    named-IsKnown (λ s. IsKnown (increment_for s true)) (3, refl) (4, refl) (5, refl) (6, refl)
      (7, refl) b
increment_for-IsKnown b false =
    named-IsKnown (λ s. IsKnown (increment_for s false)) (2, refl) (3, refl) (4, refl) (5, refl)
      (6, refl) b

abbrev pub unit_name : Bool → String
unit_name true = "inch"
unit_name false = "mm"

has_bit-4 : (b : ℕ) → (has_bit b 4 ≡ true) ↔ (4 ≤ b % 8)
unfolding has_bit
has_bit-4 b = ground arith

printed_increment :
    (inch : Bool)
    → (p : ℕ) × (unit_decimals (unit_name inch) ≡ some p)
      × (increment_for "IS-B" inch ≡ some (one_at p))
unfolding unit_decimals increment_for string_dec
printed_increment true = (4, refl, refl)
printed_increment false = (3, refl, refl)

raise_for_code-cases :
    (code : ℤ) (context : String)
    → (code ≡ pos 0)
      ⊎ ((e : FocasError) × (raise_for_code code context ≡ raised e) × (code ≡ pos 0 → ⊥))
unfolding raise_for_code
raise_for_code-cases (pos zero) context = inl refl
raise_for_code-cases (pos (suc n)) context = inr (_, refl, λ h. ground arith)
raise_for_code-cases (negsuc n) context = inr (_, refl, λ h. ground arith)

module _ (lib : Parameters) where
  -- The reply to each of the three calls.
  abbrev pub input_unit : Bytes
  input_unit = lib.cnc_rdset 0 (pos 0) 5

  abbrev pub machine_unit : Bytes
  machine_unit = lib.cnc_rdparam 1001 (pos 0) 5

  abbrev pub increments : Bytes
  increments = lib.cnc_rdparam 1013 (negsuc 0) 36

  -- The control accepts the three calls.
  abbrev pub Accepts : Type 0
  Accepts = (input_unit.0 ≡ pos 0) × (machine_unit.0 ≡ pos 0) × (increments.0 ≡ pos 0)

  abbrev pub first_axis : ℕ
  unfolding unsigned_byte
  first_axis = unsigned_byte (increments.1 0)

  abbrev pub is_inch : Bool
  unfolding unsigned_byte has_bit
  is_inch = has_bit (unsigned_byte (input_unit.1 0)) 4

  abbrev measured : ℕ → Decimal → IncrementSystem
  unfolding unsigned_byte has_bit upward decode_is_system
  measured n inc =
      let bytes = map (λ i. unsigned_byte (increments.1 i)) (upward n 0) in
      record {
        inch_input = is_inch;
        inch_machine = has_bit (unsigned_byte (machine_unit.1 0)) 1;
        p1013_per_axis = bytes;
        is_system_per_axis = map decode_is_system bytes;
        increment = inc;
      }

  accepted-Reads :
      (k : ℕ)
      → k < 32
      → Accepts
      → (inc : Decimal) → increment_for (decode_is_system first_axis) is_inch ≡ some inc
      → read_increment_system lib (pos (suc k)) ≡ read (measured (suc k) inc)
  unfolding read_increment_system read_setting_byte read_parameter_byte read_parameter_axis_bytes
      raise_for_code upward
  accepted-Reads k small (h0, h1, h2) inc found =
      rw (h0, h1, h2, le→leb (suc k) 32 small)
        (ap (λ o. looked_up o >>= (λ i. read (measured (suc k) i))) found)

  -- The first axis runs IS-B: none of its four system bits is set. A control that accepts the three calls
  -- and has 1 to 32 axes is read then, and the increment is one unit in the last decimal that an export in
  -- its input unit prints, which is the inch exactly when bit 2 of setting 0 is set: whatever the control says
  -- of its machine unit and of its other axes.
  pub read_increment_system-unit_decimals :
      (n : ℕ)
      → 0 < n
      → n ≤ 32
      → Accepts
      → first_axis % 16 ≡ 0
      → (s : IncrementSystem) × (p : ℕ) × (read_increment_system lib (pos n) ≡ read s)
        × ((s.inch_input ≡ true) ↔ (4 ≤ unsigned_byte (input_unit.1 0) % 8))
        × (unit_decimals (unit_name s.inch_input) ≡ some p)
        × (s.increment ≡ one_at p)
  unfolding measured is_inch
  read_increment_system-unit_decimals zero some_axis few accepts isb = ground arith
  read_increment_system-unit_decimals (suc k) some_axis few accepts isb =
      let (p, printed, found) = printed_increment is_inch in
      (
        measured (suc k) (one_at p),
        p,
        accepted-Reads k few accepts (one_at p) (rw (decode_is_system-Isb first_axis isb) found),
        has_bit-4 (unsigned_byte (input_unit.1 0)),
        printed,
        refl,
      )

  abbrev pub HasAxes : ℤ → Type 0
  HasAxes n = (0 < count_of_range n) × (count_of_range n ≤ 32)

  empty-refused :
      Accepts → (n : ℤ) → count_of_range n ≡ 0 → read_increment_system lib n ≡ index_error
  unfolding read_increment_system read_setting_byte read_parameter_byte read_parameter_axis_bytes
      raise_for_code upward
  empty-refused (h0, h1, h2) n none_at = rw (h0, h1, h2, none_at) refl

  beyond-refused :
      Accepts → (n : ℕ) → leb n 32 ≡ false → read_increment_system lib (pos n) ≡ index_error
  unfolding read_increment_system read_setting_byte read_parameter_byte read_parameter_axis_bytes
      raise_for_code
  beyond-refused (h0, h1, h2) n many = rw (h0, h1, h2, many) refl

  accepted-cases :
      Accepts
      → (n : ℤ)
      → ((s : IncrementSystem) × (read_increment_system lib n ≡ read s) × Accepts × HasAxes n)
        ⊎ (((read_increment_system lib n ≡ index_error) × Accepts × (HasAxes n → ⊥))
            ⊎ ((e : FocasError) × (read_increment_system lib n ≡ refused e) × (Accepts → ⊥)))
  accepted-cases accepts (pos zero) =
      inr (inl (empty-refused accepts (pos 0) refl, accepts, λ h. omega (arith, h.0)))
  accepted-cases accepts (pos (suc k)) = elim (Bool-cases (leb (suc k) 32)) [
    | inl few ↦
        let (p, found) = increment_for-IsKnown first_axis is_inch in
        let small = leb→le (suc k) 32 few in
        inl (_, accepted-Reads k small accepts (one_at p) found, accepts, (omega arith, small))
    | inr many ↦ inr (inl (beyond-refused accepts (suc k) many, accepts, λ h. ground arith))
  ]
  accepted-cases accepts (negsuc k) =
      inr (inl (empty-refused accepts (negsuc k) refl, accepts, λ h. omega (arith, h.0)))

  accepts_cases :
      Accepts
      ⊎ ((e : FocasError) × ((n : ℤ) → read_increment_system lib n ≡ refused e) × (Accepts → ⊥))
  unfolding read_increment_system read_setting_byte read_parameter_byte read_parameter_axis_bytes
  accepts_cases = elim (raise_for_code-cases input_unit.0 "cnc_rdset") [
    | inr (e, h, nonzero) ↦ inr (e, λ n. rw h refl, λ a. nonzero a.0)
    | inl h0 ↦ elim (raise_for_code-cases machine_unit.0 "cnc_rdparam") [
      | inr (e, h, nonzero) ↦ inr (e, λ n. rw (h0, h) refl, λ a. nonzero a.1)
      | inl h1 ↦ elim (raise_for_code-cases increments.0 "cnc_rdparam") [
        | inr (e, h, nonzero) ↦ inr (e, λ n. rw (h0, h1, h) refl, λ a. nonzero a.2)
        | inl h2 ↦ inl (h0, h1, h2)
      ]
    ]
  ]

  -- A read returns exactly when the control accepts the three calls and has 1 to 32 axes; it is an
  -- IndexError when it accepts them and has not, and the control's refusal otherwise. It is never a
  -- KeyError: every byte has a system, and every system an increment.
  read_increment_system-cases :
      (n : ℤ)
      → ((s : IncrementSystem) × (read_increment_system lib n ≡ read s) × Accepts × HasAxes n)
        ⊎ (((read_increment_system lib n ≡ index_error) × Accepts × (HasAxes n → ⊥))
            ⊎ ((e : FocasError) × (read_increment_system lib n ≡ refused e) × (Accepts → ⊥)))
  read_increment_system-cases n = elim accepts_cases [
    | inr (e, h, unaccepted) ↦ inr (inr (e, h n, unaccepted))
    | inl accepts ↦ accepted-cases accepts n
  ]
