-- ===== src/G10/Digits.antt =====
-- Decimal digits as code points.
use pottracker.Prelude.{
  ℕ, zero, suc, ◌+◌, ◌-◌, ◌*◌, ◌/◌, ◌%◌, ◌≤◌, ◌<◌, ◌≡◌, refl, ◌∙◌, ap, Bool, true, false, ◌&&◌,
  List, [], ◌∷◌, ◌++◌, if◌then◌else◌, ltb, leb, arith, length, if_elim, length-append,
}

abbrev pub is_digit : ℕ → Bool
is_digit c = leb 48 c && leb c 57

abbrev pub digit : ℕ → ℕ
digit d = 48 + d % 10

-- With enough fuel, the digits of a number.
show_with : ℕ → ℕ → List ℕ
show_with zero n = []
show_with (suc fuel) n =
    let rest = show_with fuel (n / 10) in if ltb n 10 then digit n ∷ [] else rest ++ (digit n ∷ [])

-- `str(n)`: a number has no more digits than one above it.
unfoldable pub show_nat : ℕ → List ℕ
unfolding show_with
show_nat n = show_with (suc n) n

-- The last digits of a number, so many.
unfoldable pub fixed : ℕ → ℕ → List ℕ
fixed zero n = []
fixed (suc p) n = fixed p (n / 10) ++ (digit n ∷ [])

-- A number without its last digits, so many.
unfoldable pub shifted : ℕ → ℕ → ℕ
shifted zero n = n
shifted (suc p) n = shifted p (n / 10)

-- `int(digits)`, from a number read so far.
unfoldable pub value_from : ℕ → List ℕ → ℕ
value_from acc [] = acc
value_from acc (c ∷ cs) = value_from (acc * 10 + (c - 48)) cs

unfoldable pub all_of : (ℕ → Bool) → List ℕ → Bool
all_of test [] = true
all_of test (c ∷ cs) = test c && all_of test cs

and_true : (a b : Bool) → a ≡ true → b ≡ true → (a && b) ≡ true
and_true a b h k = ground arith

pub all_of-append :
    (test : ℕ → Bool) (xs ys : List ℕ)
    → all_of test xs ≡ true
    → all_of test ys ≡ true
    → all_of test (xs ++ ys) ≡ true
unfolding all_of
all_of-append test [] ys h k = k
all_of-append test (x ∷ xs) ys h k = ground (arith, all_of-append test xs ys)

pub value_from-append :
    (acc : ℕ) (xs ys : List ℕ) → value_from acc (xs ++ ys) ≡ value_from (value_from acc xs) ys
unfolding value_from
value_from-append acc [] ys = refl
value_from-append acc (x ∷ xs) ys = value_from-append (acc * 10 + (x - 48)) xs ys

value_last :
    (acc n : ℕ) (xs : List ℕ)
    → value_from acc (xs ++ (digit n ∷ [])) ≡ value_from acc xs * 10 + n % 10
unfolding value_from
value_last acc n xs =
    value_from-append acc xs (digit n ∷ []) ∙ ap (λ d. value_from acc xs * 10 + d) (omega arith)

digit-is_digit : (n : ℕ) → is_digit (digit n) ≡ true
digit-is_digit n = ground arith

last_is_digit : (n : ℕ) → all_of is_digit (digit n ∷ []) ≡ true
unfolding all_of
last_is_digit n = ground arith

first_digit : (n : ℕ) → n < 10 → value_from 0 (digit n ∷ []) ≡ n
unfolding value_from
first_digit n h = omega arith

below_ten : (n : ℕ) → ltb n 10 ≡ true → n < 10
below_ten n h = ground arith

ten_up : (n : ℕ) → ltb n 10 ≡ false → 10 ≤ n
ten_up n h = ground arith

value_from-show_with : (fuel n : ℕ) → n < fuel → value_from 0 (show_with fuel n) ≡ n
unfolding show_with
value_from-show_with zero n h = absurd (omega arith)
value_from-show_with (suc fuel) n h =
    if_elim (λ (ds : List ℕ). value_from 0 ds ≡ n) (ltb n 10)
      (λ few. first_digit n (below_ten n few))
      (λ many.
        let smaller = ten_up n many in
        let rest = value_from-show_with fuel (n / 10) (omega (arith, smaller, h)) in
        value_last 0 n (show_with fuel (n / 10)) ∙ omega (arith, rest))

-- A printed number is read back.
pub value_from-show_nat : (n : ℕ) → value_from 0 (show_nat n) ≡ n
unfolding show_nat
value_from-show_nat n = value_from-show_with (suc n) n (omega arith)

show_with-is_digit : (fuel n : ℕ) → all_of is_digit (show_with fuel n) ≡ true
unfolding show_with all_of
show_with-is_digit zero n = refl
show_with-is_digit (suc fuel) n =
    if_elim (λ (ds : List ℕ). all_of is_digit ds ≡ true) (ltb n 10) (λ _. last_is_digit n)
      (λ _.
        all_of-append is_digit (show_with fuel (n / 10)) (digit n ∷ [])
          (show_with-is_digit fuel (n / 10)) (last_is_digit n))

pub show_nat-is_digit : (n : ℕ) → all_of is_digit (show_nat n) ≡ true
unfolding show_nat
show_nat-is_digit n = show_with-is_digit (suc n) n

pub fixed-is_digit : (p n : ℕ) → all_of is_digit (fixed p n) ≡ true
unfolding fixed all_of
fixed-is_digit zero n = refl
fixed-is_digit (suc p) n =
    all_of-append is_digit (fixed p (n / 10)) (digit n ∷ []) (fixed-is_digit p (n / 10))
      (last_is_digit n)

pub length-fixed : (p n : ℕ) → length (fixed p n) ≡ p
unfolding fixed
length-fixed zero n = refl
length-fixed (suc p) n =
    omega (arith, length-append (fixed p (n / 10)) (digit n ∷ []), length-fixed p (n / 10))

-- The digits before a point and those after it are those of the whole.
pub value_from-fixed :
    (p n : ℕ) → value_from (value_from 0 (show_nat (shifted p n))) (fixed p n) ≡ n
unfolding fixed shifted value_from
value_from-fixed zero n = value_from-show_nat n
value_from-fixed (suc p) n =
    value_last (value_from 0 (show_nat (shifted p (n / 10)))) n (fixed p (n / 10))
    ∙ omega (arith, value_from-fixed p (n / 10))

abbrev pub is_nil : List ℕ → Bool
is_nil [] = true
is_nil (c ∷ cs) = false

is_nil-append : (xs : List ℕ) (c : ℕ) → is_nil (xs ++ (c ∷ [])) ≡ false
is_nil-append [] c = refl
is_nil-append (x ∷ xs) c = refl

-- A number has a digit.
pub show_nat-some : (n : ℕ) → is_nil (show_nat n) ≡ false
unfolding show_nat show_with
show_nat-some n =
    if_elim (λ (ds : List ℕ). is_nil ds ≡ false) (ltb n 10) (λ _. refl)
      (λ _. is_nil-append (show_with n (n / 10)) (digit n))

pub fixed-some : (p n : ℕ) → is_nil (fixed (suc p) n) ≡ false
unfolding fixed
fixed-some p n = is_nil-append (fixed p (n / 10)) (digit n)
