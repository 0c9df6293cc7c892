-- ===== src/G10/Blocks.antt =====
-- What a printed block is read as.
use pottracker.Prelude.{
  ℕ, suc, ◌≡◌, refl, sym, ◌∙◌, ap, true, Option, some, [], ◌∷◌, ◌++◌, append-nil,
}
use pottracker.Decimal.{Decimal, quantize}
use pottracker.Model.{RegisterType}
use pottracker.G10.{Text, codes, format_value, rounded, mill_line, lathe_line}
use pottracker.G10.Digits.{show_nat, value_from-show_nat}
use pottracker.G10.Parse.{mill_block, mill_type, lathe_block, digits, decimal, optional_q}
use pottracker.G10.Numbers.{stops, digits-show_nat, decimal-print_value}

rounded-places : (p : ℕ) (v : Option Decimal) → (rounded p v).places ≡ p
unfolding quantize
rounded-places p v = refl

decimal-format_value :
    (k : ℕ) (v : Option Decimal) (rest : Text)
    → stops rest ≡ true
    → decimal (format_value (suc k) v ++ rest) ≡ some (rounded (suc k) v, rest)
unfolding format_value
decimal-format_value k v rest h =
    decimal-print_value k (rounded (suc k) v) rest (rounded-places (suc k) v) h

pub decimal-format_value_end :
    (k : ℕ) (v : Option Decimal) → decimal (format_value (suc k) v) ≡ some (rounded (suc k) v, [])
decimal-format_value_end k v =
    ap decimal (sym (append-nil (format_value (suc k) v))) ∙ decimal-format_value k v [] refl

-- A mill line is read as its bank, its register and the value it prints.
pub mill_block-mill_line :
    (k l n : ℕ) (r : RegisterType) (v : Option Decimal)
    → mill_type l ≡ some r
    → mill_block (mill_line l n (format_value (suc k) v)) ≡ some (r, n, rounded (suc k) v)
unfolding mill_block mill_line codes
mill_block-mill_line k l n r v e =
    rw
      (
        e,
        digits-show_nat n (32 ∷ 82 ∷ format_value (suc k) v) refl,
        decimal-format_value_end k v,
        value_from-show_nat n,
      )
      refl

-- A lathe line without its end is read as its number and its three values, and then its end is.
pub lathe_block-lathe_line :
    (k n : ℕ) (a b c : Option Decimal) (tail : Text) (q : Option ℕ)
    → stops tail ≡ true
    → optional_q tail ≡ some q
    → lathe_block (
        lathe_line n
          (format_value (suc k) a)
          (format_value (suc k) b)
          (format_value (suc k) c ++ tail))
      ≡ some (record {
        p_number = n;
        first = rounded (suc k) a;
        second = rounded (suc k) b;
        third = rounded (suc k) c;
        q = q;
      })
unfolding lathe_block lathe_line codes
lathe_block-lathe_line k n a b c tail q h e =
    let after_b : Text = 32 ∷ 82 ∷ (format_value (suc k) c ++ tail) in
    let after_a : Text = 32 ∷ 90 ∷ (format_value (suc k) b ++ after_b) in
    rw
      (
        digits-show_nat n (32 ∷ 88 ∷ (format_value (suc k) a ++ after_a)) refl,
        decimal-format_value k a after_a refl,
        decimal-format_value k b after_b refl,
        decimal-format_value k c tail h,
        e,
        value_from-show_nat n,
      )
      refl

pub optional_q-show_nat : (q : ℕ) → optional_q (codes " Q" ++ show_nat q) ≡ some (some q)
unfolding codes
optional_q-show_nat q =
    let e = ap digits (sym (append-nil (show_nat q))) ∙ digits-show_nat q [] refl in
    rw (e, value_from-show_nat q) refl
