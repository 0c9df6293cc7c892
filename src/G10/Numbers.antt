-- ===== src/G10/Numbers.antt =====
-- What a printed number and a printed value are read as.
use pottracker.Prelude.{
  ℕ, suc, ◌≡◌, refl, sym, ◌∙◌, ap, Bool, true, false, ◌&&◌, not, some, [], ◌∷◌, ◌++◌, append_assoc,
  eqb, arith,
}
use pottracker.Decimal.{Decimal}
use pottracker.G10.{Text, print_value, sign}
use pottracker.G10.Digits.{
  is_digit, is_nil, show_nat, fixed, shifted, all_of, show_nat-is_digit, show_nat-some,
  fixed-is_digit, fixed-some, length-fixed, value_from-fixed,
}
use pottracker.G10.Parse.{span_digits, digits, some_digits, decimal, minus, unsigned}

-- No digit follows.
abbrev pub stops : Text → Bool
stops [] = true
stops (c ∷ cs) = not (is_digit c)

both : (a b : Bool) → (a && b) ≡ true → (a ≡ true) × (b ≡ true)
both a b h = ground arith

stopped : (c : ℕ) → not (is_digit c) ≡ true → is_digit c ≡ false
stopped c h = ground arith

span_digits-stops : (rest : Text) → stops rest ≡ true → span_digits rest ≡ ([], rest)
unfolding span_digits
span_digits-stops [] h = refl
span_digits-stops (c ∷ cs) h = rw (stopped c h) refl

span_digits-append :
    (xs rest : Text)
    → all_of is_digit xs ≡ true
    → stops rest ≡ true
    → span_digits (xs ++ rest) ≡ (xs, rest)
unfolding span_digits all_of
span_digits-append [] rest d h = span_digits-stops rest h
span_digits-append (x ∷ xs) rest d h =
    let ds = both (is_digit x) (all_of is_digit xs) d in
    rw (ds.0, span_digits-append xs rest ds.1 h) refl

some_digits-some : (xs rest : Text) → is_nil xs ≡ false → some_digits xs rest ≡ some (xs, rest)
some_digits-some [] rest h = ground arith
some_digits-some (x ∷ xs) rest h = refl

pub digits-append :
    (xs rest : Text)
    → all_of is_digit xs ≡ true
    → is_nil xs ≡ false
    → stops rest ≡ true
    → digits (xs ++ rest) ≡ some (xs, rest)
unfolding digits
digits-append xs rest d some_digit h =
    rw (span_digits-append xs rest d h) (some_digits-some xs rest some_digit)

pub digits-show_nat :
    (n : ℕ) (rest : Text)
    → stops rest ≡ true
    → digits (show_nat n ++ rest) ≡ some (show_nat n, rest)
digits-show_nat n rest h = digits-append (show_nat n) rest (show_nat-is_digit n) (show_nat-some n) h

no_minus : (c : ℕ) → is_digit c ≡ true → eqb c 45 ≡ false
no_minus c h = ground arith

minus-digits :
    (xs rest : Text)
    → all_of is_digit xs ≡ true
    → is_nil xs ≡ false
    → minus (xs ++ rest) ≡ (false, xs ++ rest)
unfolding all_of
minus-digits [] rest d h = ground arith
minus-digits (x ∷ xs) rest d h = rw (no_minus x (both (is_digit x) (all_of is_digit xs) d).0) refl

minus-sign :
    (b : Bool) (xs rest : Text)
    → all_of is_digit xs ≡ true
    → is_nil xs ≡ false
    → minus (sign b ++ (xs ++ rest)) ≡ (b, xs ++ rest)
minus-sign true xs rest d h = refl
minus-sign false xs rest d h = minus-digits xs rest d h

unsigned-print :
    (b : Bool) (k : ℕ) (v : Decimal) (rest : Text)
    → stops rest ≡ true
    → unsigned b (show_nat (shifted (suc k) v.digits) ++ (46 ∷ (fixed (suc k) v.digits ++ rest)))
      ≡ some (record { negative = b; digits = v.digits; places = suc k }, rest)
unsigned-print b k v rest h =
    rw
      (
        digits-show_nat (shifted (suc k) v.digits) (46 ∷ (fixed (suc k) v.digits ++ rest)) refl,
        digits-append (fixed (suc k) v.digits) rest (fixed-is_digit (suc k) v.digits)
            (fixed-some k v.digits) h,
        value_from-fixed (suc k) v.digits,
        length-fixed (suc k) v.digits,
      )
      refl

reassociated : (a b c rest : Text) → (a ++ (b ++ c)) ++ rest ≡ a ++ (b ++ (c ++ rest))
reassociated a b c rest = append_assoc a (b ++ c) rest ∙ ap (λ t. a ++ t) (append_assoc b c rest)

-- A value with as many decimals as are printed, one at least, is read back as it was.
pub decimal-print_value :
    (k : ℕ) (v : Decimal) (rest : Text)
    → v.places ≡ suc k
    → stops rest ≡ true
    → decimal (print_value (suc k) v ++ rest) ≡ some (v, rest)
unfolding decimal print_value
decimal-print_value k v rest e h =
    let whole = show_nat (shifted (suc k) v.digits) in
    let after : Text = 46 ∷ (fixed (suc k) v.digits ++ rest) in
    ap decimal (reassociated (sign v.negative) whole (46 ∷ fixed (suc k) v.digits) rest)
    ∙ ap (λ m. unsigned m.0 m.1)
        (minus-sign v.negative whole after (show_nat-is_digit (shifted (suc k) v.digits))
          (show_nat-some (shifted (suc k) v.digits)))
    ∙ unsigned-print v.negative k v rest h
    ∙ ap (λ q. some (record { negative = v.negative; digits = v.digits; places = q }, rest)) (sym e)
