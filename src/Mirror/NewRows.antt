-- ===== src/Mirror/NewRows.antt =====
-- snapshot.py: the rows that a poll adds to the audit log, and how many.
use pottracker.Prelude.{
  ℕ, suc, ◌+◌, ◌≡◌, refl, sym, ◌∙◌, ap, ◌⊎◌, inl, inr, Bool-cases, Bool, true, false, not, ◌&&◌,
  ◌||◌, Option, List, [], ◌∷◌, ◌++◌, ◌==◌, arith, if◌then◌else◌, leb, nat_eq, option_eq, any_of,
  any_of-append, drop, drop-append, length, length-append, count_of,
}
use pottracker.Prelude.Dict.{Dict}
use pottracker.Decimal.{Decimal}
use pottracker.Model.{
  RegisterKey, PotEntry, OffsetRegister, MacroVariable, ToolLife, WorkOffsetEntry, MachineSnapshot,
  register_key_eq,
}
use pottracker.Mirror.Rows.{
  Life, AuditRow, Mirror, WorkKey, work_key_eq, life_eq, offset, pot, macro_var, work, tool,
  machine,
}
use pottracker.Mirror.Diff.{
  load, diff_offsets, diff_pots, offset_domain, pot_domain, reverted, is_reverted,
  detect_pot_reinit, sort_in, sorted,
}
use pottracker.Mirror.Domains.{
  diff_macros, diff_work_offsets, diff_tool_life, macro_domain, work_domain, life_domain,
}
use pottracker.Mirror.Persist.{
  persist, presetter_active, reinit_audit, alarm, audit_rows, reinit_min_pots,
}
use pottracker.Mirror.Loop.{diff-silent}

length-sort_in : (n : ℕ) (ns : List ℕ) → length (sort_in n ns) ≡ suc (length ns)
length-sort_in n [] = refl
length-sort_in n (m ∷ ns) = ground (arith, length-sort_in n ns)

pub length-sorted : (ns : List ℕ) → length (sorted ns) ≡ length ns
length-sorted [] = refl
length-sorted (n ∷ ns) = length-sort_in n (sorted ns) ∙ ap suc (length-sorted ns)

pub length-reverted :
    (current : Dict ℕ (Option ℕ)) (pots : List PotEntry)
    → length (reverted current pots) ≡ count_of (is_reverted current) pots
unfolding reverted
length-reverted current [] = refl
length-reverted current (p ∷ pots) = ground (arith, length-reverted current pots)

module _ {A : Type 0} (a b c d f g : List A) where
  length_six :
      length (a ++ b ++ c ++ d ++ f ++ g)
      ≡ length a + length b + length c + length d + length f + length g
  length_six = omega (
    arith,
    length-append (a ++ b ++ c ++ d ++ f) g,
    length-append (a ++ b ++ c ++ d) f,
    length-append (a ++ b ++ c) d,
    length-append (a ++ b) c,
    length-append a b,
  )

  any_six :
      (test : A → Bool)
      → any_of test (a ++ b ++ c ++ d ++ f ++ g) ≡ (
          ((((any_of test a || any_of test b) || any_of test c) || any_of test d) || any_of test f)
          || any_of test g)
  any_six test =
      rw
        (
          any_of-append test (a ++ b ++ c ++ d ++ f) g,
          any_of-append test (a ++ b ++ c ++ d) f,
          any_of-append test (a ++ b ++ c) d,
          any_of-append test (a ++ b) c,
          any_of-append test a b,
        )
        refl

length-reinit_audit :
    (pots : List ℕ) (t : ℕ)
    → length (reinit_audit pots t) ≡ (if leb reinit_min_pots (length pots) then 1 else 0)
length-reinit_audit pots t = ground arith

pub any-reinit_audit :
    (test : AuditRow → Bool) (pots : List ℕ) (t : ℕ)
    → any_of test (reinit_audit pots t) ≡ (leb reinit_min_pots (length pots) && test (alarm pots t))
any-reinit_audit test pots t = step (Bool-cases (leb reinit_min_pots (length pots)))
  where
    step :
        (leb reinit_min_pots (length pots) ≡ true) ⊎ (leb reinit_min_pots (length pots) ≡ false)
        → any_of test (reinit_audit pots t)
          ≡ (leb reinit_min_pots (length pots) && test (alarm pots t))
    step (inl enough) = rw enough (ground arith)
    step (inr few) = rw few refl

-- The rows that a poll adds to the log.
pub new_rows : MachineSnapshot → Mirror → List AuditRow
new_rows s m = drop (length m.audit) (persist s m).1.audit

-- The test for the row of an entity.
abbrev pub is_offset : RegisterKey → AuditRow → Bool
is_offset k a = elim a.entity [ offset j ↦ k == j | _ ↦ false ]

abbrev pub is_pot : ℕ → AuditRow → Bool
is_pot k a = elim a.entity [ pot j ↦ k == j | _ ↦ false ]

abbrev pub is_macro : ℕ → AuditRow → Bool
is_macro k a = elim a.entity [ macro_var j ↦ k == j | _ ↦ false ]

abbrev pub is_work : WorkKey → AuditRow → Bool
is_work k a = elim a.entity [ work j ↦ k == j | _ ↦ false ]

abbrev pub is_tool : ℕ → AuditRow → Bool
is_tool k a = elim a.entity [ tool j ↦ k == j | _ ↦ false ]

abbrev pub is_alarm : AuditRow → Bool
is_alarm a = elim a.entity [ machine ↦ not a.success | _ ↦ false ]

module _ (s : MachineSnapshot) (m : Mirror) where
  abbrev offset_audits : List AuditRow
  offset_audits =
      let active = presetter_active s m in
      (diff_offsets active (load (offset_domain active) m.offsets) s.offsets s.polled_at).audits

  abbrev pot_audits : List AuditRow
  pot_audits = (diff_pots (load pot_domain m.pots) s.pots s.polled_at).audits

  abbrev pub macro_audits : List AuditRow
  macro_audits = (diff_macros (load macro_domain m.macros) s.macros s.polled_at).audits

  abbrev life_audits : List AuditRow
  life_audits = (diff_tool_life (load life_domain m.tool_life) s.tool_life s.polled_at).audits

  abbrev work_audits : List AuditRow
  work_audits =
      (diff_work_offsets (load work_domain m.work_offsets) s.work_offsets s.polled_at).audits

  abbrev pub reinit_pots : List ℕ
  reinit_pots = detect_pot_reinit (load pot_domain m.pots) s.pots

  -- The count that a poll reports is the number of rows it adds to the log.
  pub length-persist_audit :
      length (persist s m).1.audit ≡ length m.audit + audit_rows (persist s m).0
  unfolding persist audit_rows
  length-persist_audit =
      let all =
        offset_audits
        ++ pot_audits
        ++ macro_audits
        ++ life_audits
        ++ work_audits
        ++ reinit_audit reinit_pots s.polled_at in
      omega (
        arith,
        length-append m.audit all,
        length_six offset_audits pot_audits macro_audits life_audits work_audits
            (reinit_audit reinit_pots s.polled_at),
        length-reinit_audit reinit_pots s.polled_at,
      )

  pub any-new_rows :
      (test : AuditRow → Bool)
      → any_of test (new_rows s m) ≡ (
          ((((any_of test offset_audits || any_of test pot_audits) || any_of test macro_audits)
              || any_of test life_audits)
            || any_of test work_audits)
          || any_of test (reinit_audit reinit_pots s.polled_at))
  unfolding persist new_rows
  any-new_rows test =
      ap (any_of test) (drop-append m.audit _)
      ∙ any_six offset_audits pot_audits macro_audits life_audits work_audits
          (reinit_audit reinit_pots s.polled_at) test

  pub any-persist_audit :
      (test : AuditRow → Bool)
      → any_of test (persist s m).1.audit ≡ (any_of test m.audit || any_of test (new_rows s m))
  unfolding persist new_rows
  any-persist_audit test =
      any_of-append test m.audit _
      ∙ ap (λ rows. any_of test m.audit || any_of test rows) (sym (drop-append m.audit _))

  -- No row of the domain meets the test.
  pub offset_silent :
      (test : AuditRow → Bool)
      → ((x : OffsetRegister) (old : Option (Decimal)) (t : ℕ)
          → test ((offset_domain (presetter_active s m)).event x old t) ≡ false)
      → any_of test offset_audits ≡ false
  unfolding diff_offsets
  offset_silent test law =
      diff-silent (offset_domain (presetter_active s m)) test law
        (load (offset_domain (presetter_active s m)) m.offsets) s.offsets s.polled_at

  pub pot_silent :
      (test : AuditRow → Bool)
      → ((x : PotEntry) (old : Option (Option ℕ)) (t : ℕ) → test (pot_domain.event x old t) ≡ false)
      → any_of test pot_audits ≡ false
  unfolding diff_pots
  pot_silent test law = diff-silent pot_domain test law (load pot_domain m.pots) s.pots s.polled_at

  pub macro_silent :
      (test : AuditRow → Bool)
      → ((x : MacroVariable) (old : Option (Option Decimal)) (t : ℕ)
          → test (macro_domain.event x old t) ≡ false)
      → any_of test macro_audits ≡ false
  unfolding diff_macros
  macro_silent test law =
      diff-silent macro_domain test law (load macro_domain m.macros) s.macros s.polled_at

  pub life_silent :
      (test : AuditRow → Bool)
      → ((x : ToolLife) (old : Option (Life)) (t : ℕ) → test (life_domain.event x old t) ≡ false)
      → any_of test life_audits ≡ false
  unfolding diff_tool_life
  life_silent test law =
      diff-silent life_domain test law (load life_domain m.tool_life) s.tool_life s.polled_at

  pub work_silent :
      (test : AuditRow → Bool)
      → ((x : WorkOffsetEntry) (old : Option (Decimal)) (t : ℕ)
          → test (work_domain.event x old t) ≡ false)
      → any_of test work_audits ≡ false
  unfolding diff_work_offsets
  work_silent test law =
      diff-silent work_domain test law (load work_domain m.work_offsets) s.work_offsets s.polled_at
