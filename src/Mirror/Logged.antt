-- ===== src/Mirror/Logged.antt =====
-- snapshot.py: which rows of the audit log a poll adds.
use pottracker.Prelude.{
  ℕ, ◌≡◌, refl, ◌∙◌, ap, Bool, true, false, not, Option, none, some, List, Eq, ◌==◌, arith, nat_eq,
  option_eq, any_of,
}
use pottracker.Prelude.Dict.{Dict, lookup}
use pottracker.Decimal.{dec_eq}
use pottracker.Model.{RegisterKey, MachineSnapshot, register_key_eq}
use pottracker.Mirror.Rows.{AuditRow, Mirror, WorkKey, work_key_eq, life_eq}
use pottracker.Mirror.Diff.{
  Domain, diff, load, diff_offsets, diff_pots, offset_domain, pot_domain, same_nullable,
}
use pottracker.Mirror.Domains.{
  diff_macros, diff_work_offsets, diff_tool_life, macro_domain, work_domain, life_domain,
}
use pottracker.Mirror.Persist.{presetter_active}
use pottracker.Mirror.Loop.{seen, Unique, mapped, moved, diff-Logs, lookup-load}
use pottracker.Mirror.Observed.{IsSweep}
use pottracker.Mirror.NewRows.{
  new_rows, any-new_rows, any-reinit_audit, offset_silent, pot_silent, macro_silent, life_silent,
  work_silent, reinit_pots, is_offset, is_pot, is_macro, is_work, is_tool,
}

-- A value that was read and is not the one stored, if one is.
abbrev pub differs : {V : Type 0} → (V → V → Bool) → Option V → Option V → Bool
differs same old none = false
differs same none (some v) = true
differs same (some old) (some v) = not (same old v)

module _ {E K V R : Type 0} ⦃e : Eq K⦄ (domain : Domain E K V R) where
  diff-differs :
      (about : K → AuditRow → Bool)
      → ((k : K) (x : E) (old : Option V) (t : ℕ)
          → about k (domain.event x old t) ≡ (k == domain.key x))
      → (k : K) (table : Dict K R) (xs : List E) (t : ℕ) → Unique domain.key xs
      → any_of (about k) (diff domain (load domain table) xs t).audits
        ≡ differs domain.same
            (mapped domain.stored (lookup k table))
            (mapped domain.value_of (seen domain.key k xs))
  diff-differs about law k table xs t u =
      diff-Logs domain about law k (load domain table) xs t u
      ∙ ap (λ old. moved domain old (seen domain.key k xs)) (lookup-load domain k table)
      ∙ both (lookup k table) (seen domain.key k xs)
    where
      both :
          (r : Option R) (x : Option E)
          → moved domain (mapped domain.stored r) x
            ≡ differs domain.same (mapped domain.stored r) (mapped domain.value_of x)
      both r none = refl
      both none (some x) = refl
      both (some r) (some x) = refl

module _ (s : MachineSnapshot) (m : Mirror) where
  module _ (u : IsSweep s) where
    -- A poll of a snapshot that reads nothing twice logs a change of a register, pot, variable, work
    -- offset or tool exactly when it was read with a value that is not the one the mirror holds, or for
    -- the first time.
    pub persist-Logs :
        ((k : RegisterKey)
          → any_of (is_offset k) (new_rows s m)
            ≡ differs dec_eq
                (mapped (λ r. r.value) (lookup k m.offsets))
                (mapped (λ off. off.value_mm) (seen (offset_domain false).key k s.offsets)))
        × ((k : ℕ)
            → any_of (is_pot k) (new_rows s m)
              ≡ differs
                  (λ a b. a == b)
                  (mapped (λ r. r.value) (lookup k m.pots))
                  (mapped (λ p. p.t_number) (seen pot_domain.key k s.pots)))
        × ((k : ℕ)
            → any_of (is_macro k) (new_rows s m)
              ≡ differs same_nullable
                  (mapped (λ r. r.value) (lookup k m.macros))
                  (mapped (λ v. v.value) (seen macro_domain.key k s.macros)))
        × ((k : WorkKey)
            → any_of (is_work k) (new_rows s m)
              ≡ differs dec_eq
                  (mapped (λ r. r.value) (lookup k m.work_offsets))
                  (mapped (λ w. w.value) (seen work_domain.key k s.work_offsets)))
        × ((k : ℕ)
            → any_of (is_tool k) (new_rows s m)
              ≡ differs
                  (λ a b. a == b)
                  (mapped (λ r. r.life) (lookup k m.tool_life))
                  (mapped life_domain.value_of (seen life_domain.key k s.tool_life)))
    unfolding diff_offsets diff_pots diff_macros diff_tool_life diff_work_offsets
    persist-Logs = (
      (λ k.
          rw
            (
              any-new_rows s m (is_offset k),
              diff-differs (offset_domain (presetter_active s m)) is_offset (λ _ _ _ _. refl) k
                  m.offsets s.offsets s.polled_at u.unique_offsets,
              pot_silent s m (is_offset k) (λ _ _ _. refl),
              macro_silent s m (is_offset k) (λ _ _ _. refl),
              life_silent s m (is_offset k) (λ _ _ _. refl),
              work_silent s m (is_offset k) (λ _ _ _. refl),
              any-reinit_audit (is_offset k) (reinit_pots s m) s.polled_at,
            )
            (ground arith)),
      (λ k.
          rw
            (
              any-new_rows s m (is_pot k),
              offset_silent s m (is_pot k) (λ _ _ _. refl),
              diff-differs pot_domain is_pot (λ _ _ _ _. refl) k m.pots s.pots s.polled_at
                  u.unique_pots,
              macro_silent s m (is_pot k) (λ _ _ _. refl),
              life_silent s m (is_pot k) (λ _ _ _. refl),
              work_silent s m (is_pot k) (λ _ _ _. refl),
              any-reinit_audit (is_pot k) (reinit_pots s m) s.polled_at,
            )
            (ground arith)),
      (λ k.
          rw
            (
              any-new_rows s m (is_macro k),
              offset_silent s m (is_macro k) (λ _ _ _. refl),
              pot_silent s m (is_macro k) (λ _ _ _. refl),
              diff-differs macro_domain is_macro (λ _ _ _ _. refl) k m.macros s.macros s.polled_at
                  u.unique_macros,
              life_silent s m (is_macro k) (λ _ _ _. refl),
              work_silent s m (is_macro k) (λ _ _ _. refl),
              any-reinit_audit (is_macro k) (reinit_pots s m) s.polled_at,
            )
            (ground arith)),
      (λ k.
          rw
            (
              any-new_rows s m (is_work k),
              offset_silent s m (is_work k) (λ _ _ _. refl),
              pot_silent s m (is_work k) (λ _ _ _. refl),
              macro_silent s m (is_work k) (λ _ _ _. refl),
              life_silent s m (is_work k) (λ _ _ _. refl),
              diff-differs work_domain is_work (λ _ _ _ _. refl) k m.work_offsets s.work_offsets
                  s.polled_at u.unique_work_offsets,
              any-reinit_audit (is_work k) (reinit_pots s m) s.polled_at,
            )
            (ground arith)),
      (λ k.
          rw
            (
              any-new_rows s m (is_tool k),
              offset_silent s m (is_tool k) (λ _ _ _. refl),
              pot_silent s m (is_tool k) (λ _ _ _. refl),
              macro_silent s m (is_tool k) (λ _ _ _. refl),
              diff-differs life_domain is_tool (λ _ _ _ _. refl) k m.tool_life s.tool_life
                  s.polled_at u.unique_tool_life,
              work_silent s m (is_tool k) (λ _ _ _. refl),
              any-reinit_audit (is_tool k) (reinit_pots s m) s.polled_at,
            )
            (ground arith)),
    )
