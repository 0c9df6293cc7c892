-- ===== src/Mirror/Repeat.antt =====
-- snapshot.py: a second poll that reads the same as the first.
use pottracker.Prelude.{
  ℕ, ◌-◌, ◌*◌, ◌^◌, ◌≤◌, max, ◌≡◌, refl, ◌∙◌, ap, Bool, true, false, not, ◌&&◌, ◌||◌, Option, none,
  some, List, [], ◌∷◌, ◌++◌, append-nil, Eq, ◌==◌, ==_refl, arith, eqb, le→leb, nat_eq, option_eq,
  All, All-mono, All-both,
}
use pottracker.Prelude.Dict.{Dict, lookup}
use pottracker.Decimal.{Decimal, dec_eq, dec_eq_refl, quantize, same_sign}
use pottracker.Model.{PotEntry, MachineSnapshot, register_key_eq}
use pottracker.OffsetWrite.Defs.{numeric_10_4}
use pottracker.Mirror.Rows.{Mirror, work_key_eq, life_eq}
use pottracker.Mirror.Upsert.{upsert, after_upsert, merged}
use pottracker.Mirror.Diff.{
  Domain, diff, load, is_change, diff_offsets, diff_pots, offset_domain, pot_domain, same_nullable,
  reverted, is_reverted, detect_pot_reinit, sorted,
}
use pottracker.Mirror.Domains.{
  diff_macros, diff_work_offsets, diff_tool_life, macro_domain, work_domain, life_domain,
}
use pottracker.Mirror.Persist.{persist, presetter_active, reinit_audit}
use pottracker.Mirror.Loop.{seen, Unique, mapped, seen-All, lookup-load, audits-nil}
use pottracker.Mirror.Observed.{IsSweep, lookup-upsert-diff}

module _ {E K V R : Type 0} ⦃e : Eq K⦄ (domain : Domain E K V R)
    (keeps : (old new : R) → domain.stored (domain.update old new) ≡ domain.stored new) where
  merged_stored :
      (old : Option R) (new : R) → domain.stored (merged domain.update old new) ≡ domain.stored new
  merged_stored none new = refl
  merged_stored (some old) new = keeps old new

  -- What is stored of an entry after its poll.
  stored_after :
      (current : Dict K V) (xs : List E) (t : ℕ) (table : Dict K R)
      → Unique domain.key xs
      → (x : E) → seen domain.key (domain.key x) xs ≡ some x
      → lookup
          (domain.key x)
          (load domain (upsert domain.update (diff domain current xs t).upsert_params table))
        ≡ some (domain.stored (domain.row (domain.value_of x) t))
  stored_after current xs t table u x h =
      lookup-load domain (domain.key x) _
      ∙ ap (mapped domain.stored) (lookup-upsert-diff domain (domain.key x) current xs t table u)
      ∙ ap
          (λ y. mapped domain.stored (
            after_upsert domain.update (mapped (λ x. domain.row (domain.value_of x) t) y)
              (lookup (domain.key x) table)))
          h
      ∙ ap some (merged_stored (lookup (domain.key x) table) (domain.row (domain.value_of x) t))

  repeat_unchanged :
      (current : Dict K V) (xs : List E) (t : ℕ) (table : Dict K R)
      → Unique domain.key xs
      → All
          (λ x.
            domain.same (domain.stored (domain.row (domain.value_of x) t)) (domain.value_of x)
            ≡ true)
          xs
      → All
          (λ x.
            is_change domain
              (lookup
                (domain.key x)
                (load domain (upsert domain.update (diff domain current xs t).upsert_params table)))
              (domain.value_of x)
            ≡ false)
          xs
  repeat_unchanged current xs t table u exact =
      let now = load domain (upsert domain.update (diff domain current xs t).upsert_params table) in
      let Exact : E → Type 0 = λ x.
        domain.same (domain.stored (domain.row (domain.value_of x) t)) (domain.value_of x) ≡ true in
      let Found : E → Type 0 = λ x. seen domain.key (domain.key x) xs ≡ some x in
      All-mono (λ x. Exact x × Found x)
        (λ x. is_change domain (lookup (domain.key x) now) (domain.value_of x) ≡ false)
        (λ x h. rw (stored_after current xs t table u x h.1) (ap not h.0)) xs
        (All-both Exact Found xs exact (seen-All domain.key xs u))

max_4 : (p : ℕ) → p ≤ 4 → max 4 p ≡ 4
max_4 p h = omega arith

same_digits : (s : Bool) (n : ℕ) → (eqb (n * 1) n && (same_sign s s || eqb (n * 1) 0)) ≡ true
same_digits true n = ground arith
same_digits false n = ground arith

-- A value of at most four places is stored as it is.
dec_eq-numeric_10_4 : (v : Decimal) → v.places ≤ 4 → dec_eq (numeric_10_4 v) v ≡ true
unfolding dec_eq quantize
dec_eq-numeric_10_4 v h =
    rw (le→leb v.places 4 h, max_4 v.places h)
      (same_digits v.negative (v.digits * 10 ^ (4 - v.places)))

same_nullable_refl : (v : Option Decimal) → same_nullable v v ≡ true
same_nullable_refl none = refl
same_nullable_refl (some v) = dec_eq_refl v

not_reverted :
    (current : Dict ℕ (Option ℕ)) (p : PotEntry)
    → lookup p.pot_number current ≡ some p.t_number
    → is_reverted current p ≡ false
unfolding is_reverted
not_reverted current p h = rw h (ordinal p.pot_number p.t_number)
  where
    ordinal :
        (n : ℕ) (t : Option ℕ)
        → ((t == some n) && elim (some t) [ some (some old) ↦ not (eqb old n) | _ ↦ false ]) ≡ false
    ordinal n none = ground arith
    ordinal n (some k) = ground arith

reverted-nil :
    (current : Dict ℕ (Option ℕ)) (pots : List PotEntry)
    → All (λ p. lookup p.pot_number current ≡ some p.t_number) pots
    → reverted current pots ≡ []
unfolding reverted
reverted-nil current [] h = refl
reverted-nil current (p ∷ pots) h = rw (not_reverted current p h.0) (reverted-nil current pots h.1)

module _ {A : Type 0} where
  six-nil :
      (base a b c d f g : List A)
      → a ≡ []
      → b ≡ []
      → c ≡ []
      → d ≡ []
      → f ≡ []
      → g ≡ []
      → (base ++ (a ++ b ++ c ++ d ++ f ++ g)) ≡ base
  six-nil base a b c d f g ha hb hc hd hf hg = rw (ha, hb, hc, hd, hf, hg) (append-nil base)

  All-always : (P : A → Type 0) → ((a : A) → P a) → (xs : List A) → All P xs
  All-always P h [] = tt
  All-always P h (x ∷ xs) = (h x, All-always P h xs)

-- The values that the offset columns hold exactly.
abbrev pub IsFourPlaces : MachineSnapshot → Type 0
IsFourPlaces s =
    All (λ off. off.value_mm.places ≤ 4) s.offsets × All (λ w. w.value.places ≤ 4) s.work_offsets

-- A poll that reads what the poll before it read, at any time, adds no row to the audit log, when the
-- snapshot reads nothing twice and its offsets and work offsets have four places at most.
pub persist-idempotent :
    (s : MachineSnapshot) (m : Mirror) (later : ℕ)
    → IsSweep s
    → IsFourPlaces s
    → (persist (record s { polled_at = later }) (persist s m).1).1.audit ≡ (persist s m).1.audit
unfolding load persist diff_offsets diff_pots diff_macros diff_tool_life diff_work_offsets
    detect_pot_reinit
persist-idempotent s m later u exact =
    let again = record s { polled_at = later } in
    let next = (persist s m).1 in
    let active = presetter_active s m in
    let active' = presetter_active again next in
    six-nil next.audit _ _ _ _ _ _
      (audits-nil (offset_domain active') (load (offset_domain active') next.offsets) s.offsets
        later
        (repeat_unchanged (offset_domain active) (λ _ _. refl)
          (load (offset_domain active) m.offsets) s.offsets s.polled_at m.offsets u.unique_offsets
          (All-mono _ _ (λ off h. dec_eq-numeric_10_4 off.value_mm h) s.offsets exact.0)))
      (audits-nil pot_domain _ s.pots later (
        repeat_unchanged pot_domain (λ _ _. refl) _ s.pots s.polled_at m.pots u.unique_pots
          (All-always _ (λ p. ==_refl p.t_number) s.pots)))
      (audits-nil macro_domain _ s.macros later (
        repeat_unchanged macro_domain (λ _ _. refl) _ s.macros s.polled_at m.macros u.unique_macros
          (All-always _ (λ v. same_nullable_refl v.value) s.macros)))
      (audits-nil life_domain _ s.tool_life later (
        repeat_unchanged life_domain (λ _ _. refl) _ s.tool_life s.polled_at m.tool_life
          u.unique_tool_life (All-always _ (λ tl. ==_refl (life_domain.value_of tl)) s.tool_life)))
      (audits-nil work_domain _ s.work_offsets later (
        repeat_unchanged work_domain (λ _ _. refl) _ s.work_offsets s.polled_at m.work_offsets
          u.unique_work_offsets
          (All-mono _ _ (λ w h. dec_eq-numeric_10_4 w.value h) s.work_offsets exact.1)))
      (ap (λ pots. reinit_audit (sorted pots) later)
        (reverted-nil (load pot_domain next.pots) s.pots (
          All-mono (λ p. seen pot_domain.key p.pot_number s.pots ≡ some p)
            (λ p. lookup p.pot_number (load pot_domain next.pots) ≡ some p.t_number)
            (stored_after pot_domain (λ _ _. refl) _ s.pots s.polled_at m.pots u.unique_pots) s.pots
            (seen-All pot_domain.key s.pots u.unique_pots))))
