-- ===== src/OffsetMath/Conversion.antt =====
-- Conversions of shared/focas/offset_math.py: round trips and the rounding error.
use native.Mathlib.Nat.{mod-lt, div-add-mod, pow-suc}
use pottracker.Prelude.{
  ℕ, zero, suc, ◌+◌, ◌-◌, ◌*◌, ◌/◌, ◌%◌, ◌^◌, ◌≤◌, ◌<◌, ◌≡◌, refl, ap, Bool, true, false, arith,
  leb, ltb, leb→le, if◌then◌else◌, Bool-cases, inl, inr,
}
use pottracker.Decimal.{Decimal, half_up, round_to, ℤ, pos, negsuc, signed}
use pottracker.OffsetMath.{counts_from_mm, mm_from_counts}

unit_factors : (n : ℕ) → n * 1 * 1 ≡ n
unit_factors n = omega arith

-- Counts that are turned into millimetres and back are the same counts.
pub counts_from_mm-mm_from_counts : (c : ℤ) → counts_from_mm (mm_from_counts c) ≡ c
unfolding counts_from_mm mm_from_counts
counts_from_mm-mm_from_counts (pos zero) = refl
counts_from_mm-mm_from_counts (pos (suc n)) = ap pos (unit_factors (suc n))
counts_from_mm-mm_from_counts (negsuc n) = ap (signed true) (unit_factors (suc n))

abbrev pub magnitude : ℤ → ℕ
magnitude (pos n) = n
magnitude (negsuc n) = suc n

magnitude-signed : (s : Bool) (n : ℕ) → magnitude (signed s n) ≡ n
magnitude-signed s n = ground arith

-- `c` units of `u` differ from `d` by half a unit at most.
abbrev pub Nearest : ℕ → ℕ → ℕ → Type 0
Nearest d u c = (2 * (c * u) ≤ 2 * d + u) × (2 * d ≤ 2 * (c * u) + u)

below_half : (u r : ℕ) → leb u (2 * r) ≡ false → 2 * r < u
below_half u r h = ground arith

Nearest-parts :
    (d u q r : ℕ) → u * q + r ≡ d → r < u → Nearest d u (if leb u (2 * r) then q + 1 else q)
Nearest-parts d u q r e h = elim (Bool-cases (leb u (2 * r))) [
  | inl up ↦ rw up (omega (arith, leb→le u (2 * r) up))
  | inr down ↦ rw down (omega (arith, below_half u r down))
]

round_to-Nearest : (d u : ℕ) → 0 < u → Nearest d u (round_to half_up d u)
unfolding round_to
round_to-Nearest d u h = Nearest-parts d u (d / u) (d % u) (div-add-mod d u) (mod-lt d h)

pow_pos : (n : ℕ) → 0 < 10 ^ n
pow_pos zero = omega arith
pow_pos (suc n) = rw pow-suc (omega (arith, pow_pos n))

-- Scaling both sides by ten thousand.
Nearest-scaled : (d u c : ℕ) → Nearest d u c → Nearest (d * 10000) (u * 10000) c
Nearest-scaled d u c h = omega (arith, h)

places_suc : (q : ℕ) → 10 ^ suc (suc (suc (suc q))) ≡ 10 ^ q * 10000
places_suc q = simp pow-suc (omega arith)

finer_places :
    (q : ℕ)
    → (ltb (suc (suc (suc (suc (suc q))))) 4 ≡ false)
      × (suc (suc (suc (suc (suc q)))) - 4 ≡ suc q)
      × (leb (suc q) 0 ≡ false)
      × (suc q - 0 ≡ suc q)
finer_places q = ground arith

-- A value with more places than the grid is rounded.
counts_finer :
    (s : Bool) (d q : ℕ)
    → counts_from_mm (record { negative = s; digits = d; places = suc (suc (suc (suc (suc q)))) })
      ≡ signed s (round_to half_up d (10 ^ suc q))
unfolding counts_from_mm
counts_finer s d q = let (a, b, c, e) = finer_places q in rw (a, b, c, e)

counts-Nearest :
    (s : Bool) (d p : ℕ)
    → Nearest
        (d * 10 ^ 4)
        (10 ^ p)
        (magnitude (counts_from_mm (record { negative = s; digits = d; places = p })))
unfolding counts_from_mm
counts-Nearest s d zero = rw (magnitude-signed s _) (omega arith)
counts-Nearest s d (suc zero) = rw (magnitude-signed s _) (omega arith)
counts-Nearest s d (suc (suc zero)) = rw (magnitude-signed s _) (omega arith)
counts-Nearest s d (suc (suc (suc zero))) = rw (magnitude-signed s _) (omega arith)
counts-Nearest s d (suc (suc (suc (suc zero)))) = rw (magnitude-signed s _) (omega arith)
counts-Nearest s d (suc (suc (suc (suc (suc q))))) = rw counts_finer (
    rw (magnitude-signed s (round_to half_up d (10 ^ suc q))) (
      rw (places_suc (suc q)) (
        Nearest-scaled d (10 ^ suc q) (round_to half_up d (10 ^ suc q))
          (round_to-Nearest d (10 ^ suc q) (pow_pos (suc q))))))

-- The counts of a value are the nearest whole number of them, off by half a count at most, for every
-- value, however many places it has.
pub counts_from_mm-Nearest :
    (v : Decimal) → Nearest (v.digits * 10 ^ 4) (10 ^ v.places) (magnitude (counts_from_mm v))
counts_from_mm-Nearest v = counts-Nearest v.negative v.digits v.places
