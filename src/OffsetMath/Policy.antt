-- ===== src/OffsetMath/Policy.antt =====
-- What shared/focas/offset_math.py permits to be written, and when a change is large.
use pottracker.Prelude.{ℕ, suc, ◌+◌, ◌-◌, ◌≤◌, ◌≡◌, ◌↔◌, true, none, some, arith, ltb}
use pottracker.Decimal.{ℤ, pos, negsuc}
use pottracker.Model.{RegisterType, h_geom, d_wear}
use pottracker.OffsetMath.{
  mm_from_counts, is_writable, assert_writable, is_large_diff, within_bounds, panel_only,
}

-- `assert_writable` lets a type pass exactly when `is_writable` holds, which is for H_GEOM alone; it
-- refuses D_WEAR as panel-only and each other type as not enabled.
pub assert_writable-is_writable :
    (r : RegisterType)
    → ((assert_writable r ≡ none) ↔ (is_writable r ≡ true))
      × ((is_writable r ≡ true) ↔ (r ≡ h_geom))
      × ((assert_writable r ≡ some panel_only) ↔ (r ≡ d_wear))
unfolding assert_writable is_writable
assert_writable-is_writable r = ground arith

-- The distance of two counts.
abbrev pub distance : ℤ → ℤ → ℕ
distance (pos m) (pos n) = (m - n) + (n - m)
distance (pos m) (negsuc n) = m + suc n
distance (negsuc m) (pos n) = suc m + n
distance (negsuc m) (negsuc n) = (m - n) + (n - m)

-- A change between two values of the control is large exactly when it is of more than 5000 counts.
pub is_large_diff-mm_from_counts :
    (a b : ℤ) → is_large_diff (mm_from_counts a) (mm_from_counts b) ≡ ltb 5000 (distance a b)
unfolding is_large_diff mm_from_counts
is_large_diff-mm_from_counts (pos m) (pos n) = ground arith
is_large_diff-mm_from_counts (pos m) (negsuc n) = ground arith
is_large_diff-mm_from_counts (negsuc m) (pos n) = ground arith
is_large_diff-mm_from_counts (negsuc m) (negsuc n) = ground arith

-- A value of the control is within bounds exactly when it has eight digits of counts at most.
pub within_bounds-mm_from_counts :
    (c : ℤ) → (within_bounds (mm_from_counts c) ≡ true) ↔ (distance c (pos 0) ≤ 99999999)
unfolding within_bounds mm_from_counts
within_bounds-mm_from_counts (pos n) = ground arith
within_bounds-mm_from_counts (negsuc n) = ground arith
