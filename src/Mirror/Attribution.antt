-- ===== src/Mirror/Attribution.antt =====
-- snapshot.py: whom a poll credits with a change of a tool's length, and the alarm of the pots.
use pottracker.Prelude.{
  ℕ, ◌≡◌, refl, sym, ◌∙◌, ap, ap₂, subst, ◌⊎◌, inl, inr, Bool-cases, Bool, true, false, not, ◌&&◌,
  ◌||◌, Option, none, some, List, [], ◌∷◌, Eq, ◌==◌, ==_iff, ==_refl, arith, if◌then◌else◌, leb,
  eqb, eqb_iff, nat_eq, any_of, count_of,
}
use pottracker.Prelude.Dict.{Dict, lookup}
use pottracker.Prelude.Search.{any_of-lookup, some_inj, or_true}
use pottracker.Decimal.{Decimal, dec_eq}
use pottracker.Model.{
  RegisterType, RegisterType-discrete, RegisterType.h_geom, RegisterKey, OffsetRegister,
  MacroVariable, MachineSnapshot, register_key_eq,
}
use pottracker.Mirror.Rows.{
  Tracked, AuditRow, Mirror, Source, presetter_verified, manual_edit, source_eq, offset, value_mm,
}
use pottracker.Mirror.Diff.{
  Domain, diff, load, diff_offsets, is_change, offset_domain, source_tag, pot_domain, same_nullable,
  is_reverted, detect_pot_reinit, reverted,
}
use pottracker.Mirror.Domains.{diff_macros, macro_domain}
use pottracker.Mirror.Persist.{
  persist, presetter_active, is_touched, is_skip_var, is_macro_event, skip_changed_last_cycle,
  reinit_min_pots,
}
use pottracker.Mirror.Loop.{seen, seen_key, keyed, mapped, lookup-load, any-if}
use pottracker.Mirror.Observed.{IsSweep, persist-refreshed, refreshed}
use pottracker.Mirror.NewRows.{
  new_rows, any-new_rows, any-persist_audit, macro_audits, is_alarm, offset_silent, pot_silent,
  macro_silent, life_silent, work_silent, any-reinit_audit, reinit_pots, length-sorted,
  length-reverted,
}

and_left : (a b : Bool) → (a && b) ≡ true → a ≡ true
and_left a b h = ground arith

and_right : (a b : Bool) → (a && b) ≡ true → b ≡ true
and_right a b h = ground arith

not-true : (b : Bool) → not b ≡ true → b ≡ false
not-true b h = ground arith

eqb_refl : (n : ℕ) → eqb n n ≡ true
eqb_refl n = ground arith

module _ {E K V R : Type 0} ⦃e : Eq K⦄ (domain : Domain E K V R) where
  -- The row of an entry with a new value is logged.
  diff-event :
      (test : AuditRow → Bool) (k : K) (current : Dict K V) (xs : List E) (t : ℕ) {x : E}
      → seen domain.key k xs ≡ some x
      → is_change domain (lookup k current) (domain.value_of x) ≡ true
      → test (domain.event x (lookup k current) t) ≡ true
      → any_of test (diff domain current xs t).audits ≡ true
  unfolding diff seen keyed lookup
  diff-event test k current [] t h c p = ground arith
  diff-event test k current (y ∷ xs) t {x} h c p =
      any-if domain test (is_change domain (lookup (domain.key y) current) (domain.value_of y)) _ _
      ∙ step (Bool-cases (k == domain.key y)) h (λ h. diff-event test k current xs t h c p)
    where
      logs : K → E → Type 0
      logs i z =
          ((is_change domain (lookup i current) (domain.value_of z)
              && test (domain.event z (lookup i current) t))
            || any_of test (diff domain current xs t).audits)
          ≡ true

      step :
          ((k == domain.key y) ≡ true) ⊎ ((k == domain.key y) ≡ false)
          → (if k == domain.key y then some y else seen domain.key k xs) ≡ some x
          → (seen domain.key k xs ≡ some x → any_of test (diff domain current xs t).audits ≡ true)
          → ((is_change domain (lookup (domain.key y) current) (domain.value_of y)
                && test (domain.event y (lookup (domain.key y) current) t))
              || any_of test (diff domain current xs t).audits)
            ≡ true
      step (inl same) h rest =
          let q =
            some_inj (subst (λ b. (if b then some y else seen domain.key k xs) ≡ some x) same h) in
          subst (λ i. logs i y) ((==_iff _ _).0 same)
            (subst (λ z. logs k z) (sym q) (rw (c, p) refl))
      step (inr differ) h rest =
          let q = subst (λ b. (if b then some y else seen domain.key k xs) ≡ some x) differ h in
          rw (rest q) (or_true _)

-- The row of a register's change with the source that it names.
abbrev pub is_tagged : RegisterKey → Source → AuditRow → Bool
is_tagged k source a =
    elim a.entity [ offset j ↦ k == j | _ ↦ false ]
    && elim a.after [ value_mm v (some tag) ↦ source == tag | _ ↦ false ]

tag_of :
    (active : Bool) (t : RegisterType) (old : Decimal)
    → t ≡ h_geom
    → source_tag active t (some old) ≡ some (if active then presetter_verified else manual_edit)
unfolding RegisterType-discrete
tag_of active t old q = rw q refl

abbrev names : Source → Bool → Option Source → Bool
names source same_key tag = same_key && elim tag [ none ↦ false | some t ↦ source == t ]

tags :
    (n : ℕ) (active : Bool) (off : OffsetRegister) (row : Tracked Decimal) (t : ℕ)
    → (offset_domain active).key off ≡ (n, h_geom)
    → is_tagged
        (n, h_geom)
        (if active then presetter_verified else manual_edit)
        ((offset_domain active).event off (some row.value) t)
      ≡ true
tags n active off row t key =
    let tag = if active then presetter_verified else manual_edit in
    ap₂ (names tag)
      ((==_iff {A = RegisterKey} (n, h_geom) ((offset_domain active).key off)).1 (sym key))
      (tag_of active off.register_type row.value (ap (λ k. k.1) key))
    ∙ ==_refl tag

refreshed_moved :
    (old : Tracked (Option Decimal)) (new : Option Decimal) (t : ℕ)
    → same_nullable old.value new ≡ false
    → refreshed same_nullable t (some new) (some old)
      ≡ some (record { value = new; last_polled_at = t; last_changed_at = t })
refreshed_moved old new t differ = rw differ refl

module _ (s : MachineSnapshot) (m : Mirror) where
  -- The change is logged with the source that the attribution of the poll says.
  pub tagged_as :
      (n : ℕ) (off : OffsetRegister) (row : Tracked Decimal)
      → seen (offset_domain false).key (n, h_geom) s.offsets ≡ some off
      → lookup (n, h_geom) m.offsets ≡ some row
      → dec_eq row.value off.value_mm ≡ false
      → any_of
          (is_tagged (n, h_geom) (if presetter_active s m then presetter_verified else manual_edit))
          (new_rows s m)
        ≡ true
  unfolding diff_offsets
  tagged_as n off row h r differ =
      let active = presetter_active s m in
      let tag = if active then presetter_verified else manual_edit in
      let test = is_tagged (n, h_geom) tag in
      let key = seen_key (offset_domain false).key (n, h_geom) s.offsets off h in
      let stored =
        lookup-load (offset_domain active) (n, h_geom) m.offsets ∙ ap (mapped (λ r. r.value)) r in
      rw
        (
          any-new_rows s m test,
          diff-event (offset_domain active) test (n, h_geom) (load (offset_domain active) m.offsets)
              s.offsets s.polled_at h (rw stored (rw differ refl))
              (rw stored (tags n active off row s.polled_at key)),
        )
        refl

  touched_facts :
      (k : ℕ) (v : MacroVariable)
      → v.number ≡ k
      → is_touched (load macro_domain m.macros) v ≡ true
      → (is_skip_var k ≡ true)
        × ((old : Tracked (Option Decimal)) × ((lookup k m.macros ≡ some old)
              × (same_nullable old.value v.value ≡ false)))
  touched_facts k v p h = facts (lookup k m.macros) refl (
      rw
        (
          sym (ap (λ o. is_skip_var k && is_move o v.value) (lookup-load macro_domain k m.macros)),
          sym p,
        )
        h)
    where
      is_move : Option (Option Decimal) → Option Decimal → Bool
      is_move stored new = elim stored [ none ↦ false | some old ↦ not (same_nullable old new) ]

      facts :
          (row : Option (Tracked (Option Decimal)))
          → lookup k m.macros ≡ row
          → (is_skip_var k && is_move (mapped (λ r. r.value) row) v.value) ≡ true
          → (is_skip_var k ≡ true)
            × ((old : Tracked (Option Decimal)) × ((lookup k m.macros ≡ some old)
                  × (same_nullable old.value v.value ≡ false)))
      facts none e h = ground arith
      facts (some old) e h = (and_left _ _ h, (old, (e, not-true _ (and_right _ _ h))))

  -- The change of the variable is in the log with this poll's time.
  change_logged :
      (k : ℕ) (v : MacroVariable) (old : Tracked (Option Decimal))
      → seen macro_domain.key k s.macros ≡ some v
      → lookup k m.macros ≡ some old
      → same_nullable old.value v.value ≡ false
      → any_of (λ a. is_macro_event a k s.polled_at) (persist s m).1.audit ≡ true
  unfolding diff_macros
  change_logged k v old h r differ =
      let test : AuditRow → Bool = λ a. is_macro_event a k s.polled_at in
      let stored = lookup-load macro_domain k m.macros ∙ ap (mapped (λ r. r.value)) r in
      let logged : any_of test (macro_audits s m) ≡ true =
        diff-event macro_domain test k (load macro_domain m.macros) s.macros s.polled_at h
          (rw stored (rw differ refl))
          (rw
            (
              stored,
              (eqb_iff _ _).1 (seen_key macro_domain.key k s.macros v h),
              eqb_refl s.polled_at,
            )
            refl) in
      rw (any-persist_audit s m test, any-new_rows s m test, logged) (ground arith)

  -- After a poll that reads nothing twice and in which a skip variable moved, the next poll, whatever it
  -- reads, takes the presetter as active: a sweep that caught the touch and not yet the offset is made
  -- good.
  pub presetter_active-persist :
      (u : IsSweep s) (k : ℕ) (v : MacroVariable)
      → seen macro_domain.key k s.macros ≡ some v
      → is_touched (load macro_domain m.macros) v ≡ true
      → (next : MachineSnapshot) → presetter_active next (persist s m).1 ≡ true
  unfolding presetter_active skip_changed_last_cycle
  presetter_active-persist u k v h touched next =
      let facts = touched_facts k v (seen_key macro_domain.key k s.macros v h) touched in
      let old = facts.1.0 in
      let now : Tracked (Option Decimal) = record {
        value = v.value;
        last_polled_at = s.polled_at;
        last_changed_at = s.polled_at;
      } in
      let row =
        (persist-refreshed s m u).2 k
        ∙ ap₂ (refreshed same_nullable s.polled_at) (ap (mapped (λ v. v.value)) h) facts.1.1.0 in
      let test : ℕ × Tracked (Option Decimal) → Bool = λ r.
        is_skip_var r.0
        && eqb r.1.last_changed_at r.1.last_polled_at
        && any_of (λ a. is_macro_event a r.0 r.1.last_changed_at) (persist s m).1.audit in
      rw
        (any_of-lookup test k (persist s m).1.macros {r = now}
          (row ∙ refreshed_moved old v.value s.polled_at facts.1.1.1)
          (rw (facts.0, eqb_refl s.polled_at, change_logged k v old h facts.1.1.0 facts.1.1.1)
            refl))
        (or_true _)

  -- A poll raises the alarm of a reset exactly when at least four pots that held another tool read
  -- their own number.
  pub persist-alarm :
      any_of is_alarm (new_rows s m)
      ≡ leb reinit_min_pots (count_of (is_reverted (load pot_domain m.pots)) s.pots)
  unfolding detect_pot_reinit
  persist-alarm =
      rw
        (
          any-new_rows s m is_alarm,
          offset_silent s m is_alarm (λ _ _ _. refl),
          pot_silent s m is_alarm (λ _ _ _. refl),
          macro_silent s m is_alarm (λ _ _ _. refl),
          life_silent s m is_alarm (λ _ _ _. refl),
          work_silent s m is_alarm (λ _ _ _. refl),
          any-reinit_audit is_alarm (reinit_pots s m) s.polled_at,
          length-sorted (reverted (load pot_domain m.pots) s.pots),
          length-reverted (load pot_domain m.pots) s.pots,
        )
        (ground arith)
