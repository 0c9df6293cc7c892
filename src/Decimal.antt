-- ===== src/Decimal.antt =====
-- Python's `decimal.Decimal`, as far as the program uses it: a sign, the digits as one number and the
-- count of decimal places. The context's 28 significant digits are not reached by the program's
-- values (ten digits at most), so the operations are exact; no exponent is above zero.
use pottracker.Prelude.{
  ℕ, suc, ◌+◌, ◌-◌, ◌*◌, ◌/◌, ◌%◌, ◌^◌, max, ◌≡◌, Bool, true, false, not, ◌&&◌, ◌||◌, arith, ltb,
  leb, eqb, if◌then◌else◌,
}

-- `negsuc n` is -(n + 1).
pub data ℤ : Type 0 where
  pos : ℕ → ℤ
  negsuc : ℕ → ℤ

pub record Decimal : Type 0 where
  pub negative : Bool
  pub digits : ℕ
  pub places : ℕ

-- The digits of a value as a multiple of 10 ^ -p, for p no less than its own places.
abbrev scaled : Decimal → ℕ → ℕ
scaled a p = a.digits * 10 ^ (p - a.places)

abbrev pub same_sign : Bool → Bool → Bool
same_sign true b = b
same_sign false b = not b

-- `a == b`: by value, so that 0.50 == 0.5 and -0 == 0.
unfoldable pub dec_eq : Decimal → Decimal → Bool
dec_eq a b =
    let p = max a.places b.places in
    eqb (scaled a p) (scaled b p) && (same_sign a.negative b.negative || eqb (scaled a p) 0)

abbrev signed_le : Bool → Bool → ℕ → ℕ → Bool
signed_le true true m n = leb n m
signed_le true false m n = true
signed_le false true m n = eqb m 0 && eqb n 0
signed_le false false m n = leb m n

-- `a <= b`.
unfoldable pub dec_le : Decimal → Decimal → Bool
dec_le a b =
    let p = max a.places b.places in signed_le a.negative b.negative (scaled a p) (scaled b p)

unfoldable pub dec_lt : Decimal → Decimal → Bool
unfolding dec_le
dec_lt a b = not (dec_le b a)

-- The rounding modes in use: `ROUND_HALF_UP`, and the context's default `ROUND_HALF_EVEN`.
pub data Rounding : Type 0 where
  half_up half_even : Rounding

-- The multiple of `unit` nearest to `digits`, as a count of units.
unfoldable pub round_to : Rounding → ℕ → ℕ → ℕ
round_to half_up digits unit =
    if leb unit (2 * (digits % unit)) then digits / unit + 1 else digits / unit
round_to half_even digits unit =
    if ltb unit (2 * (digits % unit))
    then digits / unit + 1
    else if eqb unit (2 * (digits % unit)) && eqb (digits / unit % 2) 1
    then digits / unit + 1
    else digits / unit

-- `a.quantize(Decimal(1).scaleb(-p), rounding)`; the sign is kept.
unfoldable pub quantize : Rounding → Decimal → ℕ → Decimal
unfolding round_to
quantize rounding a p = record {
  negative = a.negative;
  digits = if leb a.places p then scaled a p else round_to rounding a.digits (10 ^ (a.places - p));
  places = p;
}

abbrev signed_sub : Bool → Bool → ℕ → ℕ → ℕ → Decimal
signed_sub true true m n p =
    if leb n m
    then record { negative = not (eqb m n); digits = m - n; places = p }
    else record { negative = false; digits = n - m; places = p }
signed_sub false false m n p =
    if leb n m
    then record { negative = false; digits = m - n; places = p }
    else record { negative = true; digits = n - m; places = p }
signed_sub s t m n p = record { negative = s; digits = m + n; places = p }

-- `a - b`.
unfoldable pub dec_sub : Decimal → Decimal → Decimal
dec_sub a b =
    let p = max a.places b.places in signed_sub a.negative b.negative (scaled a p) (scaled b p) p

unfoldable pub dec_neg : Decimal → Decimal
dec_neg a = record a { negative = not a.negative }

-- `a + b`.
unfoldable pub dec_add : Decimal → Decimal → Decimal
unfolding dec_sub dec_neg
dec_add a b = dec_sub a (dec_neg b)

unfoldable pub dec_abs : Decimal → Decimal
dec_abs a = record a { negative = false }

pub dec_eq_refl : (a : Decimal) → dec_eq a a ≡ true
unfolding dec_eq
dec_eq_refl a = ground arith

-- `int(a)` for a value with no places.
abbrev pub signed : Bool → ℕ → ℤ
signed true (suc n) = negsuc n
signed _ n = pos n

-- `Decimal(n)`.
abbrev pub to_decimal : ℤ → Decimal
to_decimal (pos n) = record { negative = false; digits = n; places = 0 }
to_decimal (negsuc n) = record { negative = true; digits = suc n; places = 0 }
