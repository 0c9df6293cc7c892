-- ===== src/Mirror/Loop.antt =====
-- snapshot_diff.py: what the loop of a `diff_` makes of each entry.
use pottracker.Prelude.{
  ℕ, ◌≡◌, refl, sym, ◌∙◌, ap, ◌⊎◌, inl, inr, Bool, true, false, ◌&&◌, ◌||◌, Option, none, some,
  List, [], ◌∷◌, Eq, ◌==◌, arith, if◌then◌else◌, ==_iff, ==_refl, Bool-cases, any_of, All, All-mono,
}
use pottracker.Prelude.Dict.{Dict, lookup}
use pottracker.Mirror.Rows.{AuditRow}
use pottracker.Mirror.Upsert.{NodupKeys}
use pottracker.Mirror.Diff.{Domain, load, diff, is_change}

abbrev pub mapped {ℓ κ} : {A : Type ℓ} {B : Type κ} → (A → B) → Option A → Option B
mapped f none = none
mapped f (some a) = some (f a)

mapped-if :
    {A B : Type 0} (f : A → B) (b : Bool) (a : A) (o : Option A) (r : Option B)
    → r ≡ mapped f o
    → (if b then some (f a) else r) ≡ mapped f (if b then some a else o)
mapped-if f true a o r h = refl
mapped-if f false a o r h = h

module _ {E K : Type 0} ⦃e : Eq K⦄ (key : E → K) where
  -- The entries under their keys.
  unfoldable pub keyed : List E → Dict K E
  keyed [] = []
  keyed (x ∷ xs) = (key x, x) ∷ keyed xs

  -- What the snapshot says of a key.
  unfoldable pub seen : K → List E → Option E
  seen k xs = lookup k (keyed xs)

  -- No key stands twice in the snapshot.
  unfoldable pub Unique : List E → Type 0
  Unique [] = Unit
  Unique (x ∷ xs) = (seen (key x) xs ≡ none) × Unique xs

  pub seen_key : (k : K) (xs : List E) (x : E) → seen k xs ≡ some x → key x ≡ k
  unfolding seen keyed lookup
  seen_key k [] x h = ground arith
  seen_key k (y ∷ xs) x h = ground (arith, seen_key k xs x)

  seen_skip :
      (x y : E) (xs : List E)
      → seen (key x) xs ≡ none
      → seen (key y) xs ≡ some y
      → seen (key y) (x ∷ xs) ≡ some y
  unfolding seen keyed lookup
  seen_skip x y xs u h = step (Bool-cases (key y == key x))
    where
      step :
          ((key y == key x) ≡ true) ⊎ ((key y == key x) ≡ false)
          → (if key y == key x then some x else lookup (key y) (keyed xs)) ≡ some y
      step (inl same) =
          let p = sym u ∙ sym (ap (λ k. lookup k (keyed xs)) ((==_iff _ _).0 same)) ∙ h in
          ground arith
      step (inr differ) = rw differ h

  -- Each entry of a snapshot without repetition is what the snapshot says of its key.
  pub seen-All : (xs : List E) → Unique xs → All (λ x. seen (key x) xs ≡ some x) xs
  unfolding Unique seen keyed lookup
  seen-All [] u = tt
  seen-All (x ∷ xs) u = (
    rw (==_refl (key x)) refl,
    All-mono (λ y. seen (key y) xs ≡ some y) (λ y. seen (key y) (x ∷ xs) ≡ some y)
        (λ y. seen_skip x y xs u.0) xs (seen-All xs u.1),
  )

module _ {E K V R : Type 0} ⦃e : Eq K⦄ (domain : Domain E K V R) where
  pub lookup-load :
      (k : K) (table : Dict K R)
      → lookup k (load domain table) ≡ mapped domain.stored (lookup k table)
  unfolding lookup load
  lookup-load k [] = refl
  lookup-load k ((j, r) ∷ table) = mapped-if domain.stored (k == j) r _ _ (lookup-load k table)

  pub lookup-upsert_params :
      (k : K) (current : Dict K V) (xs : List E) (t : ℕ)
      → lookup k (diff domain current xs t).upsert_params
        ≡ mapped (λ x. domain.row (domain.value_of x) t) (seen domain.key k xs)
  unfolding lookup diff seen keyed
  lookup-upsert_params k current [] t = refl
  lookup-upsert_params k current (x ∷ xs) t =
      mapped-if (λ x. domain.row (domain.value_of x) t) (k == domain.key x) x _ _
        (lookup-upsert_params k current xs t)

  pub upsert_params-NodupKeys :
      (current : Dict K V) (xs : List E) (t : ℕ)
      → Unique domain.key xs
      → NodupKeys (diff domain current xs t).upsert_params
  unfolding diff Unique
  upsert_params-NodupKeys current [] t u = tt
  upsert_params-NodupKeys current (x ∷ xs) t u = (
    lookup-upsert_params (domain.key x) current xs t
        ∙ ap (mapped (λ x. domain.row (domain.value_of x) t)) u.0,
    upsert_params-NodupKeys current xs t u.1,
  )

  -- Nothing is logged when every entry is the stored value.
  pub audits-nil :
      (current : Dict K V) (xs : List E) (t : ℕ)
      → All (λ x. is_change domain (lookup (domain.key x) current) (domain.value_of x) ≡ false) xs
      → (diff domain current xs t).audits ≡ []
  unfolding diff
  audits-nil current [] t h = refl
  audits-nil current (x ∷ xs) t h = rw h.0 (audits-nil current xs t h.1)

  -- What the snapshot says of a key is not the stored value.
  abbrev pub moved : Option V → Option E → Bool
  moved old none = false
  moved old (some x) = is_change domain old (domain.value_of x)

  pub any-if :
      (test : AuditRow → Bool) (c : Bool) (a : AuditRow) (rest : List AuditRow)
      → any_of test (if c then a ∷ rest else rest) ≡ ((c && test a) || any_of test rest)
  any-if test true a rest = refl
  any-if test false a rest = refl

  -- A key is logged, by a test that tells the events of the keys apart, when the snapshot has it with a
  -- value that is not the stored one.
  pub diff-Logs :
      (about : K → AuditRow → Bool)
      → ((k : K) (x : E) (old : Option V) (t : ℕ)
          → about k (domain.event x old t) ≡ (k == domain.key x))
      → (k : K) (current : Dict K V) (xs : List E) (t : ℕ) → Unique domain.key xs
      → any_of (about k) (diff domain current xs t).audits
        ≡ moved (lookup k current) (seen domain.key k xs)
  unfolding diff seen keyed lookup Unique
  diff-Logs about law k current [] t u = refl
  diff-Logs about law k current (x ∷ xs) t u =
      any-if (about k) (is_change domain (lookup (domain.key x) current) (domain.value_of x)) _ _
      ∙ step (Bool-cases (k == domain.key x)) (law k x (lookup (domain.key x) current) t)
          (diff-Logs about law k current xs t u.1)
    where
      c : Bool
      c = is_change domain (lookup (domain.key x) current) (domain.value_of x)

      rest : Bool
      rest = any_of (about k) (diff domain current xs t).audits

      step :
          ((k == domain.key x) ≡ true) ⊎ ((k == domain.key x) ≡ false)
          → about k (domain.event x (lookup (domain.key x) current) t) ≡ (k == domain.key x)
          → rest ≡ moved (lookup k current) (seen domain.key k xs)
          → ((c && about k (domain.event x (lookup (domain.key x) current) t)) || rest)
            ≡ moved (lookup k current) (if k == domain.key x then some x else seen domain.key k xs)
      step (inl same) p ih =
          let q = (==_iff _ _).0 same in
          let u' = ap (λ k. seen domain.key k xs) q ∙ u.0 in
          rw (p, same, ih, u', ap (λ k. lookup k current) q) (ground arith)
      step (inr differ) p ih = rw (p, differ, ih) (ground arith)

  -- A test that no event of the domain meets finds nothing.
  pub diff-silent :
      (test : AuditRow → Bool)
      → ((x : E) (old : Option V) (t : ℕ) → test (domain.event x old t) ≡ false)
      → (current : Dict K V) (xs : List E) (t : ℕ)
      → any_of test (diff domain current xs t).audits ≡ false
  unfolding diff
  diff-silent test law current [] t = refl
  diff-silent test law current (x ∷ xs) t =
      rw
        (
          any-if test (is_change domain (lookup (domain.key x) current) (domain.value_of x)) _ _,
          law,
          diff-silent test law current xs t,
        )
        (ground arith)
