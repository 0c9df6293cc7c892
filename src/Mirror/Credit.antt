-- ===== src/Mirror/Credit.antt =====
-- snapshot.py: which poll credits the presetter with a change of a tool's length.
use pottracker.Prelude.{
  ℕ, ◌≤◌, ◌≡◌, refl, ◌∙◌, ap, ◌⊎◌, inl, inr, Bool-cases, Bool, true, false, not, ◌&&◌, Option, none,
  some, List, [], ◌∷◌, Eq, arith, if◌then◌else◌, eqb, nat_eq, any_of, All, All-mono, subst,
}
use pottracker.Prelude.Dict.{lookup}
use pottracker.Decimal.{Decimal, dec_eq}
use pottracker.Model.{
  RegisterType.h_geom, OffsetRegister, MacroVariable, MachineSnapshot, register_key_eq,
}
use pottracker.Mirror.Rows.{Tracked, Mirror, presetter_verified, manual_edit}
use pottracker.Mirror.Diff.{load, offset_domain, same_nullable}
use pottracker.Mirror.Domains.{macro_domain}
use pottracker.Mirror.Persist.{
  persist, presetter_active, is_touched, is_skip_var, is_macro_event, skip_changed_last_cycle,
}
use pottracker.Mirror.Loop.{seen, seen_key, keyed, mapped, lookup-load}
use pottracker.Mirror.Observed.{IsSweep}
use pottracker.Mirror.NewRows.{new_rows}
use pottracker.Mirror.Attribution.{is_tagged, tagged_as, presetter_active-persist}

module _ {E K : Type 0} ⦃e : Eq K⦄ (key : E → K) where
  any-seen :
      (test : E → Bool) (k : K) (xs : List E) (x : E)
      → seen key k xs ≡ some x
      → test x ≡ true
      → any_of test xs ≡ true
  unfolding seen keyed lookup
  any-seen test k [] x h p = ground arith
  any-seen test k (y ∷ xs) x h p = ground (arith, any-seen test k xs x)

-- The variables in which a G31 touch of the presetter is latched.
abbrev pub IsSkip : ℕ → Type 0
IsSkip n = (5061 ≤ n) × (n ≤ 5063)

-- A poll reads a skip variable with a value that differs from the one stored before it.
pub record Fires (s : MachineSnapshot) (m : Mirror) : Type 0 where
  pub number : ℕ
  pub skip : IsSkip number
  pub reading : MacroVariable
  pub observed : seen macro_domain.key number s.macros ≡ some reading
  pub old : Tracked (Option Decimal)
  pub stored : lookup number m.macros ≡ some old
  pub moved : same_nullable old.value reading.value ≡ false

-- No skip variable reads another value than the one stored, and none was changed by its last poll.
pub record IsQuiet (s : MachineSnapshot) (m : Mirror) : Type 0 where
  pub now :
      All
        (λ v.
          IsSkip v.number
          → (old : Tracked (Option Decimal)) → lookup v.number m.macros ≡ some old
          → same_nullable old.value v.value ≡ true)
        s.macros
  pub before :
      All
        (λ (r : ℕ × Tracked (Option Decimal)).
          IsSkip r.0 → r.1.last_changed_at ≡ r.1.last_polled_at → ⊥)
        m.macros

is_skip_var-IsSkip : (n : ℕ) → IsSkip n → is_skip_var n ≡ true
is_skip_var-IsSkip n h = ground arith

IsSkip-is_skip_var : (n : ℕ) → is_skip_var n ≡ true → IsSkip n
IsSkip-is_skip_var n h = ground arith

is_touched-Fires :
    (s : MachineSnapshot) (m : Mirror) (f : Fires s m)
    → is_touched (load macro_domain m.macros) f.reading ≡ true
is_touched-Fires s m f =
    rw
      (
        seen_key macro_domain.key f.number s.macros f.reading f.observed,
        lookup-load macro_domain f.number m.macros,
        f.stored,
        is_skip_var-IsSkip f.number f.skip,
        f.moved,
      )
      refl

presetter_active-Fires :
    (s : MachineSnapshot) (m : Mirror) → Fires s m → presetter_active s m ≡ true
unfolding presetter_active
presetter_active-Fires s m f =
    rw
      (any-seen macro_domain.key (is_touched (load macro_domain m.macros)) f.number s.macros
        f.reading f.observed (is_touched-Fires s m f))
      refl

and_false : (b : Bool) → (b && false) ≡ false
and_false b = ground arith

any-none :
    {A : Type 0} (test : A → Bool) (xs : List A)
    → All (λ x. test x ≡ false) xs
    → any_of test xs ≡ false
any-none test [] h = refl
any-none test (x ∷ xs) h = rw (h.0, any-none test xs h.1) refl

module _ (s : MachineSnapshot) (m : Mirror) where
  abbrev is_move : Option (Option Decimal) → Option Decimal → Bool
  is_move stored new = elim stored [ none ↦ false | some old ↦ not (same_nullable old new) ]

  unmoved :
      (v : MacroVariable) (row : Option (Tracked (Option Decimal)))
      → (IsSkip v.number
          → (old : Tracked (Option Decimal)) → row ≡ some old
          → same_nullable old.value v.value ≡ true)
      → (is_skip_var v.number && is_move (mapped (λ r. r.value) row) v.value) ≡ false
  unmoved v none h = and_false (is_skip_var v.number)
  unmoved v (some old) h = elim (Bool-cases (is_skip_var v.number)) [
    | inl skip ↦ rw (skip, h (IsSkip-is_skip_var v.number skip) old refl) refl
    | inr other ↦ rw other refl
  ]

  is_touched-quiet :
      (v : MacroVariable)
      → (IsSkip v.number
          → (old : Tracked (Option Decimal)) → lookup v.number m.macros ≡ some old
          → same_nullable old.value v.value ≡ true)
      → is_touched (load macro_domain m.macros) v ≡ false
  is_touched-quiet v h =
      ap (λ o. is_skip_var v.number && is_move o v.value)
        (lookup-load macro_domain v.number m.macros)
      ∙ unmoved v (lookup v.number m.macros) h

  unchanged :
      (r : ℕ × Tracked (Option Decimal)) (logged : Bool)
      → (IsSkip r.0 → r.1.last_changed_at ≡ r.1.last_polled_at → ⊥)
      → (is_skip_var r.0 && eqb r.1.last_changed_at r.1.last_polled_at && logged) ≡ false
  unchanged r logged h = ground arith

  presetter_active-quiet : IsQuiet s m → presetter_active s m ≡ false
  unfolding presetter_active skip_changed_last_cycle
  presetter_active-quiet q =
      rw
        (
          any-none (is_touched (load macro_domain m.macros)) s.macros (
              All-mono _ (λ v. is_touched (load macro_domain m.macros) v ≡ false) is_touched-quiet
                s.macros q.now),
          any-none
              (λ r.
                is_skip_var r.0
                && eqb r.1.last_changed_at r.1.last_polled_at
                && any_of (λ a. is_macro_event a r.0 r.1.last_changed_at) m.audit)
              m.macros
              (All-mono _ _
                (λ r h.
                  unchanged r (any_of (λ a. is_macro_event a r.0 r.1.last_changed_at) m.audit) h)
                m.macros q.before),
        )
        refl

-- Over the mirror that a poll which read nothing twice has left, the next poll reads an H_GEOM register with a
-- value that differs from the one stored. The change is logged as the presetter's when a skip variable
-- changed in this poll or in the one before, and as a manual edit when none changed in this poll and the
-- mirror has none that its last poll changed.
pub persist-credits :
    (s₀ s : MachineSnapshot) (m₀ : Mirror) (n : ℕ) (off : OffsetRegister) (row : Tracked Decimal)
    → IsSweep s₀
    → seen (offset_domain false).key (n, h_geom) s.offsets ≡ some off
    → lookup (n, h_geom) (persist s₀ m₀).1.offsets ≡ some row
    → dec_eq row.value off.value_mm ≡ false
    → let m = (persist s₀ m₀).1 in
      (Fires s m ⊎ Fires s₀ m₀
        → any_of (is_tagged (n, h_geom) presetter_verified) (new_rows s m) ≡ true)
      × (IsQuiet s m → any_of (is_tagged (n, h_geom) manual_edit) (new_rows s m) ≡ true)
persist-credits s₀ s m₀ n off row u h r differ =
    let m = (persist s₀ m₀).1 in
    let by : (b : Bool)
        → presetter_active s m ≡ b
        → any_of (is_tagged (n, h_geom) (if b then presetter_verified else manual_edit))
            (new_rows s m)
          ≡ true =
      λ b e.
        subst
          (λ b.
            any_of (is_tagged (n, h_geom) (if b then presetter_verified else manual_edit))
              (new_rows s m)
            ≡ true)
          e (tagged_as s m n off row h r differ) in
    (
      λ fired. by true (elim fired [
        | inl f ↦ presetter_active-Fires s m f
        | inr f ↦
            presetter_active-persist s₀ m₀ u f.number f.reading f.observed
              (is_touched-Fires s₀ m₀ f) s
      ]),
      λ quiet. by false (presetter_active-quiet s m quiet),
    )
