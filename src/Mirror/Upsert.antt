-- ===== src/Mirror/Upsert.antt =====
-- INSERT … ON CONFLICT DO UPDATE, for a list of rows: the shape of every `_upsert_` of snapshot.py.
use pottracker.Prelude.{
  ◌≡◌, refl, ap, true, false, Option, none, some, List, [], ◌∷◌, Eq, ◌==◌, if◌then◌else◌, ==_iff,
  Bool-cases, inl, inr, ◌⊎◌,
}
use pottracker.Prelude.Dict.{Dict, lookup, insert, lookup-insert}

-- What the statement leaves of the row that is there, if one is, and of the excluded row.
abbrev pub merged : {R : Type 0} → (R → R → R) → Option R → R → R
merged update none excluded = excluded
merged update (some old) excluded = update old excluded

-- What a key holds after the statement, if it stands among the rows and what it held before.
abbrev pub after_upsert : {R : Type 0} → (R → R → R) → Option R → Option R → Option R
after_upsert update none old = old
after_upsert update (some row) old = some (merged update old row)

module _ {K R : Type 0} ⦃e : Eq K⦄ where
  -- No key stands twice among the rows.
  abbrev pub NodupKeys : List (K × R) → Type 0
  NodupKeys [] = Unit
  NodupKeys ((k, row) ∷ params) = (lookup k params ≡ none) × NodupKeys params

  unfoldable pub upsert : (R → R → R) → List (K × R) → Dict K R → Dict K R
  upsert update [] table = table
  upsert update ((k, row) ∷ params) table =
      upsert update params (insert k (merged update (lookup k table) row) table)

  pub lookup-upsert :
      (update : R → R → R) (j : K) (params : List (K × R)) (table : Dict K R)
      → NodupKeys params
      → lookup j (upsert update params table)
        ≡ after_upsert update (lookup j params) (lookup j table)
  unfolding upsert lookup
  lookup-upsert update j [] table u = refl
  lookup-upsert update j ((k, row) ∷ params) table u =
      let v = merged update (lookup k table) row in
      rw (lookup-upsert update j params (insert k v table) u.1, lookup-insert j k v table)
        (cons_case j k row (Bool-cases (j == k)) u.0)
    where
      cons_case :
          (j k : K) (row : R)
          → ((j == k) ≡ true) ⊎ ((j == k) ≡ false)
          → lookup k params ≡ none
          → after_upsert update
              (lookup j params)
              (if j == k then some (merged update (lookup k table) row) else lookup j table)
            ≡ after_upsert update (if j == k then some row else lookup j params) (lookup j table)
      cons_case j k row (inl same) u =
          let p = (==_iff j k).0 same in
          rw (same, ap (λ i. lookup i params) p, u, ap (λ i. lookup i table) p) refl
      cons_case j k row (inr differ) u = rw (differ) refl
