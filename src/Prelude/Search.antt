-- ===== src/Prelude/Search.antt =====
-- A row that a query over a table finds.
use mathlib.Core.Path.{◌≡◌, refl, sym, ap₂, subst}
use mathlib.Core.Logic.{◌⊎◌, inl, inr}
use mathlib.Core.Bool.{Bool, true, false, ◌||◌}
use mathlib.Core.Option.{Option, some}
use mathlib.Core.List.{[], ◌∷◌}
use native.Mathlib.Omega.{arith}
use pottracker.Prelude.Tests.{if◌then◌else◌, Bool-cases}
use pottracker.Prelude.Lists.{any_of}
use pottracker.Prelude.Equality.{Eq, ◌==◌, ==_iff}
use pottracker.Prelude.Dict.{Dict, lookup}

pub or_true : (b : Bool) → (b || true) ≡ true
or_true b = ground arith

pub some_inj : {A : Type 0} {a b : A} → Path (Option A) (some a) (some b) → a ≡ b
some_inj h = ground arith

module _ {K R : Type 0} ⦃e : Eq K⦄ where
  pub any_of-lookup :
      (test : K × R → Bool) (k : K) (table : Dict K R) {r : R}
      → lookup k table ≡ some r
      → test (k, r) ≡ true
      → any_of test table ≡ true
  unfolding lookup
  any_of-lookup test k [] h p = ground arith
  any_of-lookup test k ((j, w) ∷ table) {r} h p =
      step (Bool-cases (k == j)) h (λ h. any_of-lookup test k table h p)
    where
      step :
          ((k == j) ≡ true) ⊎ ((k == j) ≡ false)
          → (if k == j then some w else lookup k table) ≡ some r
          → (lookup k table ≡ some r → any_of test table ≡ true)
          → (test (j, w) || any_of test table) ≡ true
      step (inl same) h rest =
          let q = some_inj (subst (λ b. (if b then some w else lookup k table) ≡ some r) same h) in
          rw (ap₂ (λ i v. test (i, v)) (sym ((==_iff k j).0 same)) q, p) refl
      step (inr differ) h rest =
          let q = subst (λ b. (if b then some w else lookup k table) ≡ some r) differ h in
          rw (rest q) (or_true (test (j, w)))
