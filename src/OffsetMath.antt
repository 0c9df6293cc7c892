-- ===== src/OffsetMath.antt =====
-- shared/focas/offset_math.py: conversions between millimetres and counts, the type codes and the
-- policy of what may be written. The constructors of `OffsetMathError` are the causes of
-- the errors that it raises.
pub mod Conversion
pub mod Policy
use pottracker.Prelude.{
  ℕ, ◌+◌, ◌-◌, ◌*◌, ◌^◌, Bool, true, false, not, ◌&&◌, Option, none, some, List, [], ◌∷◌, any_of,
  ltb, if◌then◌else◌, ◌==◌, suc,
}
use pottracker.Decimal.{
  Decimal, half_up, half_even, quantize, dec_eq, dec_le, dec_lt, dec_sub, dec_neg, dec_abs, ℤ,
  signed, to_decimal,
}
use pottracker.Model.{
  RegisterType, h_geom, h_wear, d_geom, d_wear, register_type_eq, RegisterType-discrete,
}

abbrev pub offset_increment_mm : Decimal
offset_increment_mm = record { negative = false; digits = 1; places = 4 }

abbrev large_diff_threshold_mm : Decimal
large_diff_threshold_mm = record { negative = false; digits = 5; places = 1 }

abbrev offset_abs_max_mm : Decimal
offset_abs_max_mm = record { negative = false; digits = 99999999; places = 4 }

-- `REGISTER_TYPE_TO_CODE`; `none` where the dict has no key.
unfoldable pub register_type_to_code : RegisterType → Option ℕ
register_type_to_code d_geom = some 1
register_type_to_code h_wear = some 2
register_type_to_code h_geom = some 3
register_type_to_code d_wear = some 4
register_type_to_code _ = none

abbrev writable_types_v1 : List RegisterType
writable_types_v1 = h_geom ∷ []

abbrev never_writable : List RegisterType
never_writable = d_wear ∷ []

abbrev member : RegisterType → List RegisterType → Bool
member r = any_of (λ s. r == s)

-- The quotient by 0.0001, which is exact: four places fewer.
abbrev over_increment : Decimal → Decimal
over_increment v =
    if ltb v.places 4
    then record v { digits = v.digits * 10 ^ (4 - v.places); places = 0 }
    else record v { places = v.places - 4 }

pub counts_from_mm : Decimal → ℤ
unfolding quantize
counts_from_mm value_mm =
    let counts = quantize half_up (over_increment value_mm) 0 in
    signed counts.negative counts.digits

-- The product with 0.0001 has four places more.
unfoldable pub mm_from_counts : ℤ → Decimal
unfolding quantize
mm_from_counts counts =
    let d = to_decimal counts in quantize half_even (record d { places = d.places + 4 }) 4

pub data OffsetMathError : Type 0 where
  panel_only not_enabled increment_mismatch : OffsetMathError

pub is_writable : RegisterType → Bool
unfolding RegisterType-discrete
is_writable register_type =
    member register_type writable_types_v1 && not (member register_type never_writable)

-- `none` where the function returns, and the error that it raises.
unfoldable pub assert_writable : RegisterType → Option OffsetMathError
unfolding RegisterType-discrete
assert_writable register_type =
    if member register_type never_writable
    then some panel_only
    else if not (member register_type writable_types_v1)
    then some not_enabled
    else none

unfoldable pub within_bounds : Decimal → Bool
unfolding dec_le dec_neg
within_bounds value_mm =
    dec_le (dec_neg offset_abs_max_mm) value_mm && dec_le value_mm offset_abs_max_mm

unfoldable pub diff_mm : Decimal → Decimal → Decimal
unfolding dec_abs dec_sub quantize
diff_mm old_mm new_mm = quantize half_even (dec_abs (dec_sub new_mm old_mm)) 4

unfoldable pub is_large_diff : Decimal → Decimal → Bool
unfolding diff_mm dec_lt
is_large_diff old_mm new_mm = dec_lt large_diff_threshold_mm (diff_mm old_mm new_mm)

unfoldable pub verify_increment : Decimal → Option OffsetMathError
unfolding dec_eq
verify_increment reported_increment_mm =
    if not (dec_eq reported_increment_mm offset_increment_mm) then some increment_mismatch else none
