-- ===== src/Prelude/Equality.antt =====
-- Python's `==` for the types whose equality can be decided, as an instance argument.
use Prim.Native.Nat.{ℕ}
use Prim.Native.String.{String}
use mathlib.Core.Path.{◌≡◌, refl}
use mathlib.Core.Logic.{◌↔◌, ite}
use mathlib.Core.Bool.{Bool, true, false, Bool-discrete}
use mathlib.Core.Option.{Option}
use native.Mathlib.Omega.{arith}
use native.Mathlib.Decide.{ℕ_discrete}
use text.Mathlib.Text
use text.Mathlib.TextEquality.{eq_iff}

pub record Eq {ℓ} (A : Type ℓ) : Type ℓ where
  pub dec : Discrete A

infix 50 ◌==◌
abbrev pub ◌==◌ {ℓ} : {A : Type ℓ} ⦃e : Eq A⦄ → A → A → Bool
◌==◌ ⦃e⦄ a b = ite (e.dec a b) true false

pub ==_iff {ℓ} : {A : Type ℓ} ⦃e : Eq A⦄ (a b : A) → ((a == b) ≡ true) ↔ (a ≡ b)
==_iff a b = ground arith

pub ==_refl {ℓ} : {A : Type ℓ} ⦃e : Eq A⦄ (a : A) → (a == a) ≡ true
==_refl a = (==_iff a a).1 refl

pub ==_ne {ℓ} : {A : Type ℓ} ⦃e : Eq A⦄ (a b : A) → (a ≡ b → ⊥) → (a == b) ≡ false
==_ne a b h = ground arith

instance abbrev pub nat_eq : Eq ℕ
nat_eq = record { dec = ℕ_discrete }

pub option_dec : Discrete (Option ℕ)
option_dec = hlevel ℕ_discrete

instance abbrev pub option_eq : Eq (Option ℕ)
option_eq = record { dec = option_dec }

unfoldable pub string_dec : Discrete String
string_dec s t = elim (Bool-discrete (Text.◌==◌ s t) true) [
  | yes same ↦ yes ((eq_iff s t).0 same)
  | no differ ↦ no (λ p. differ ((eq_iff s t).1 p))
]

instance abbrev pub string_eq : Eq String
string_eq = record { dec = string_dec }

pub option_string_dec : Discrete (Option String)
option_string_dec = hlevel string_dec

instance abbrev pub option_string_eq : Eq (Option String)
option_string_eq = record { dec = option_string_dec }
