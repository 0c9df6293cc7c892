-- ===== src/G10/Writes.antt =====
-- The rows that a list of writes gives, and what they hold.
use pottracker.Prelude.{
  ℕ, ◌≡◌, refl, sym, ◌∙◌, ap, ap₂, ==_iff, Bool, true, false, ◌&&◌, ◌||◌, Option, some, List, [],
  ◌∷◌, ◌++◌, if◌then◌else◌, ◌==◌, nat_eq, any_of, arith, Bool-cases, ◌⊎◌, inl, inr,
}
use pottracker.Prelude.Dict.{lookup, insert, lookup-insert}
use pottracker.Decimal.{Decimal}
use pottracker.Model.{RegisterType, register_type_eq}
use pottracker.G10.{Rows, Banks, banks_of, or_empty}
use pottracker.G10.Parse.{set_bank}

-- The value of a bank of a register.
unfoldable pub value_at : Rows → ℕ → RegisterType → Option Decimal
unfolding banks_of lookup
value_at rows n r = lookup r (banks_of rows n)

abbrev pub Write : Type 0
Write = ℕ × RegisterType

abbrev pub same_write : ℕ → RegisterType → Write → Bool
same_write n r (m, t) = (n == m) && (r == t)

or_empty-if :
    (b : Bool) (x : Banks) (y : Option Banks)
    → or_empty (if b then some x else y) ≡ (if b then x else or_empty y)
or_empty-if true x y = refl
or_empty-if false x y = refl

banks_of-set_bank :
    (n m : ℕ) (r : RegisterType) (v : Decimal) (rows : Rows)
    → banks_of (set_bank m r v rows) n
      ≡ (if n == m then insert r v (banks_of rows m) else banks_of rows n)
unfolding banks_of set_bank
banks_of-set_bank n m r v rows =
    ap or_empty (lookup-insert n m (insert r v (banks_of rows m)) rows)
    ∙ or_empty-if (n == m) (insert r v (banks_of rows m)) (lookup n rows)

value_at-set_bank :
    (n m : ℕ) (r t : RegisterType) (v : Decimal) (rows : Rows)
    → value_at (set_bank m t v rows) n r
      ≡ (if same_write n r (m, t) then some v else value_at rows n r)
unfolding value_at
value_at-set_bank n m r t v rows =
    ap (lookup r) (banks_of-set_bank n m t v rows) ∙ split (Bool-cases (n == m))
  where
    split :
        ((n == m) ≡ true) ⊎ ((n == m) ≡ false)
        → lookup r (if n == m then insert t v (banks_of rows m) else banks_of rows n)
          ≡ (if (n == m) && (r == t) then some v else lookup r (banks_of rows n))
    split (inl same) = rw same (
        lookup-insert r t v (banks_of rows m)
        ∙ ap (λ k. if r == t then some v else lookup r (banks_of rows k))
            (sym ((==_iff n m).0 same)))
    split (inr differ) = rw differ refl

both : (a b : Bool) → (a && b) ≡ true → (a ≡ true) × (b ≡ true)
both a b h = ground arith

merged :
    (a b : Bool) (x y : Decimal) (z : Option Decimal)
    → (a ≡ true → x ≡ y)
    → (if b then some y else if a then some x else z) ≡ (if a || b then some y else z)
merged true true x y z h = refl
merged true false x y z h = ap some (h refl)
merged false true x y z h = refl
merged false false x y z h = refl

-- The writes in their order, each with the value that its bank is given.
module _ (given : ℕ → RegisterType → Decimal) where
  unfoldable pub applied : List Write → Rows → Rows
  unfolding set_bank
  applied [] rows = rows
  applied ((m, t) ∷ writes) rows = applied writes (set_bank m t (given m t) rows)

  pub applied-append :
      (xs ys : List Write) (rows : Rows) → applied (xs ++ ys) rows ≡ applied ys (applied xs rows)
  unfolding applied
  applied-append [] ys rows = refl
  applied-append ((m, t) ∷ xs) ys rows = applied-append xs ys (set_bank m t (given m t) rows)

  same_given : (n m : ℕ) (r t : RegisterType) → same_write n r (m, t) ≡ true → given m t ≡ given n r
  same_given n m r t h =
      let hs = both (n == m) (r == t) h in
      ap₂ given (sym ((==_iff n m).0 hs.0)) (sym ((==_iff r t).0 hs.1))

  -- A bank that is written holds what it is given, and any other what it held.
  pub value_at-applied :
      (writes : List Write) (rows : Rows) (n : ℕ) (r : RegisterType)
      → value_at (applied writes rows) n r
        ≡ (if any_of (same_write n r) writes then some (given n r) else value_at rows n r)
  unfolding applied
  value_at-applied [] rows n r = refl
  value_at-applied ((m, t) ∷ writes) rows n r =
      value_at-applied writes (set_bank m t (given m t) rows) n r
      ∙ ap (λ old. if any_of (same_write n r) writes then some (given n r) else old)
          (value_at-set_bank n m r t (given m t) rows)
      ∙ merged (same_write n r (m, t)) (any_of (same_write n r) writes) (given m t) (given n r)
          (value_at rows n r) (same_given n m r t)
