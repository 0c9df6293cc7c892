-- ===== src/Focas/Sweep.antt =====
-- A sweep asks a list of requests one by one; those that fail leave nothing.
use pottracker.Prelude.{
  ◌≡◌, refl, sym, ◌∙◌, ap, subst, Bool, true, Option, none, some, List, [], ◌∷◌, ◌++◌, Eq, ==_refl,
  ==_ne, All, All-mono, All-both, arith, ℕ, eqb, not, ◌&&◌,
}
use pottracker.Prelude.Dict.{lookup}
use pottracker.Mirror.Loop.{seen, keyed, Unique}

abbrev pub kept : {E : Type 0} → Option E → List E → List E
kept none rest = rest
kept (some x) rest = x ∷ rest

module _ {Q E : Type 0} where
  unfoldable pub gather : (Q → Option E) → List Q → List E
  gather ask [] = []
  gather ask (q ∷ qs) = kept (ask q) (gather ask qs)

pub All-append {ℓ κ} :
    {A : Type ℓ} (P : A → Type κ) (xs ys : List A) → All P xs → All P ys → All P (xs ++ ys)
All-append P [] ys h k = k
All-append P (x ∷ xs) ys h k = (h.0, All-append P xs ys h.1 k)

module _ {K Q : Type 0} (asked : Q → K) where
  -- No request stands twice.
  abbrev pub Distinct : List Q → Type 0
  Distinct [] = Unit
  Distinct (q ∷ qs) = All (λ r. asked r ≡ asked q → ⊥) qs × Distinct qs

  pub Distinct-append :
      (xs ys : List Q)
      → Distinct xs
      → Distinct ys
      → All (λ x. All (λ y. asked y ≡ asked x → ⊥) ys) xs
      → Distinct (xs ++ ys)
  Distinct-append [] ys u v h = v
  Distinct-append (x ∷ xs) ys u v h =
      (All-append (λ y. asked y ≡ asked x → ⊥) xs ys u.0 h.0, Distinct-append xs ys u.1 v h.1)

all_true : (a b : Bool) → (a && b) ≡ true → (a ≡ true) × (b ≡ true)
all_true a b h = ground arith

apart : (m n : ℕ) → not (eqb m n) ≡ true → m ≡ n → ⊥
apart m n h e = ground arith

-- A list of requests is seen to be without repetition by a rank of its keys.
module _ {K Q : Type 0} (rank : K → ℕ) (asked : Q → K) where
  abbrev pub ranked_apart : Q → List Q → Bool
  ranked_apart q [] = true
  ranked_apart q (r ∷ qs) = not (eqb (rank (asked r)) (rank (asked q))) && ranked_apart q qs

  abbrev pub is_distinct : List Q → Bool
  is_distinct [] = true
  is_distinct (q ∷ qs) = ranked_apart q qs && is_distinct qs

  ranked_apart-All :
      (q : Q) (qs : List Q) → ranked_apart q qs ≡ true → All (λ r. asked r ≡ asked q → ⊥) qs
  ranked_apart-All q [] h = tt
  ranked_apart-All q (r ∷ qs) h =
      let hs = all_true (not (eqb (rank (asked r)) (rank (asked q)))) (ranked_apart q qs) h in
      (λ e. apart _ _ hs.0 (ap rank e), ranked_apart-All q qs hs.1)

  pub Distinct-is_distinct : (qs : List Q) → is_distinct qs ≡ true → Distinct asked qs
  Distinct-is_distinct [] h = tt
  Distinct-is_distinct (q ∷ qs) h =
      let hs = all_true (ranked_apart q qs) (is_distinct qs) h in
      (ranked_apart-All q qs hs.0, Distinct-is_distinct qs hs.1)

module _ {K Q E : Type 0} ⦃e : Eq K⦄ (key : E → K) (asked : Q → K) (ask : Q → Option E) where
  -- An answer is about what was asked.
  abbrev pub Echoes : Type 0
  Echoes = (q : Q) (x : E) → ask q ≡ some x → key x ≡ asked q

  kept_absent :
      (k : K) (a : Option E) (rest : List E)
      → ((x : E) → a ≡ some x → key x ≡ k → ⊥)
      → seen key k rest ≡ none
      → seen key k (kept a rest) ≡ none
  unfolding seen keyed lookup
  kept_absent k none rest h r = r
  kept_absent k (some x) rest h r = rw (==_ne k (key x) (λ p. h x refl (sym p))) r

  module _ (echoes : Echoes) where
    absent :
        (k : K) (qs : List Q) → All (λ r. asked r ≡ k → ⊥) qs → seen key k (gather ask qs) ≡ none
    unfolding gather seen keyed lookup
    absent k [] h = refl
    absent k (q ∷ qs) h =
        kept_absent k (ask q) (gather ask qs) (λ x p same. h.0 (sym (echoes q x p) ∙ same))
          (absent k qs h.1)

    -- Each request that is asked once shows its answer, and nothing is read twice.
    present :
        (a : Option E) (q : Q) (rest : List E)
        → ask q ≡ a
        → seen key (asked q) rest ≡ none
        → seen key (asked q) (kept a rest) ≡ a
    unfolding seen keyed lookup
    present none q rest e r = r
    present (some x) q rest e r =
        subst (λ k. seen key k (x ∷ rest) ≡ some x) (echoes q x e) (rw (==_refl (key x)) refl)

    skipped :
        (a : Option E) (q r : Q) (rest : List E)
        → ask q ≡ a
        → (asked r ≡ asked q → ⊥)
        → seen key (asked r) (kept a rest) ≡ seen key (asked r) rest
    unfolding seen keyed lookup
    skipped none q r rest e differ = refl
    skipped (some x) q r rest e differ =
        rw (==_ne (asked r) (key x) (λ p. differ (p ∙ echoes q x e))) refl

    pub seen-gather :
        (qs : List Q) → Distinct asked qs → All (λ q. seen key (asked q) (gather ask qs) ≡ ask q) qs
    unfolding gather seen keyed lookup
    seen-gather [] u = tt
    seen-gather (q ∷ qs) u = (
      present (ask q) q (gather ask qs) refl (absent (asked q) qs u.0),
      All-mono (λ r. (asked r ≡ asked q → ⊥) × (seen key (asked r) (gather ask qs) ≡ ask r))
          (λ r. seen key (asked r) (kept (ask q) (gather ask qs)) ≡ ask r)
          (λ r h. skipped (ask q) q r (gather ask qs) refl h.0 ∙ h.1) qs
          (All-both (λ r. asked r ≡ asked q → ⊥) (λ r. seen key (asked r) (gather ask qs) ≡ ask r)
            qs u.0 (seen-gather qs u.1)),
    )

    kept-Unique :
        (a : Option E) (q : Q) (rest : List E)
        → ask q ≡ a
        → seen key (asked q) rest ≡ none
        → Unique key rest
        → Unique key (kept a rest)
    unfolding Unique
    kept-Unique none q rest e h u = u
    kept-Unique (some x) q rest e h u = (ap (λ k. seen key k rest) (echoes q x e) ∙ h, u)

    pub gather-Unique : (qs : List Q) → Distinct asked qs → Unique key (gather ask qs)
    unfolding gather Unique
    gather-Unique [] u = tt
    gather-Unique (q ∷ qs) u =
        kept-Unique (ask q) q (gather ask qs) refl (absent (asked q) qs u.0) (gather-Unique qs u.1)
