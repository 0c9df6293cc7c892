-- ===== src/Mirror/Persist.antt =====
-- snapshot.py: the load of the mirror, the statements and `persist`.
use pottracker.Prelude.{
  ℕ, ◌+◌, Bool, true, false, not, ◌&&◌, ◌||◌, Option, none, some, List, [], ◌∷◌, ◌++◌,
  if◌then◌else◌, leb, eqb, nat_eq, any_of, length,
}
use pottracker.Prelude.Dict.{Dict, lookup}
use pottracker.Decimal.{Decimal}
use pottracker.Model.{MacroVariable, MachineSnapshot, register_key_eq}
use pottracker.Mirror.Rows.{
  StatusState, StatusRow, macro_var, machine, macro_change, EventType, reverted_pots, AuditRow,
  Mirror, work_key_eq,
}
use pottracker.Mirror.Upsert.{upsert}
use pottracker.Mirror.Diff.{
  same_nullable, load, diff_offsets, diff_pots, detect_pot_reinit, offset_domain, pot_domain,
}
use pottracker.Mirror.Domains.{
  diff_macros, diff_work_offsets, diff_tool_life, diff_status, macro_domain, work_domain,
  life_domain, same_state,
}

abbrev pub reinit_min_pots : ℕ
reinit_min_pots = 4

-- PRESETTER_SKIP_VARS.
abbrev pub is_skip_var : ℕ → Bool
is_skip_var n = eqb n 5061 || eqb n 5062 || eqb n 5063

pub record PersistResult : Type 0 where
  pub offsets_observed : ℕ
  pub offsets_changed : ℕ
  pub pots_observed : ℕ
  pub pots_changed : ℕ
  pub tool_life_observed : ℕ
  pub tool_life_changed : ℕ
  pub macros_observed : ℕ
  pub macros_changed : ℕ
  pub pot_reinit_suspected : Bool
  pub status_changed : Bool
  pub work_offsets_observed : ℕ
  pub work_offsets_changed : ℕ

unfoldable pub audit_rows : PersistResult → ℕ
audit_rows r =
    r.offsets_changed
    + r.pots_changed
    + r.tool_life_changed
    + r.macros_changed
    + r.work_offsets_changed
    + (if r.pot_reinit_suspected then 1 else 0)

abbrev pub is_macro_event : AuditRow → ℕ → ℕ → Bool
is_macro_event a number t =
    elim a.event_type [ macro_change ↦ true | _ ↦ false ]
    && elim a.entity [ macro_var n ↦ eqb n number | _ ↦ false ]
    && eqb a.occurred_at t
    && elim a.before [ none ↦ false | some _ ↦ true ]

unfoldable pub skip_changed_last_cycle : Mirror → Bool
skip_changed_last_cycle m =
    any_of
      (λ r.
        is_skip_var r.0
        && eqb r.1.last_changed_at r.1.last_polled_at
        && any_of (λ a. is_macro_event a r.0 r.1.last_changed_at) m.audit)
      m.macros

-- A skip variable with a prior value that differs.
abbrev pub is_touched : Dict ℕ (Option Decimal) → MacroVariable → Bool
is_touched cur_macros v = is_skip_var v.number && elim (lookup v.number cur_macros) [
  | none ↦ false
  | some old ↦ not (same_nullable old v.value)
]

unfoldable pub presetter_active : MachineSnapshot → Mirror → Bool
presetter_active snapshot m =
    any_of (is_touched (load macro_domain m.macros)) snapshot.macros || skip_changed_last_cycle m

abbrev coalesce : Option ℕ → Option ℕ → Option ℕ
coalesce none stored = stored
coalesce (some n) stored = some n

unfoldable pub upsert_status : StatusRow → Option StatusRow → StatusRow
upsert_status param none = param
upsert_status param (some old) = record {
  state = param.state;
  program_name = param.program_name;
  last_tool_t_word = coalesce param.last_tool_t_word old.last_tool_t_word;
  last_tool_at = coalesce param.last_tool_at old.last_tool_at;
  last_polled_at = param.last_polled_at;
  last_changed_at =
      if not (same_state old.state param.state) then param.last_changed_at else old.last_changed_at;
}

abbrev load_status : Option StatusRow → Option StatusState
load_status none = none
load_status (some row) = some row.state

abbrev pub alarm : List ℕ → ℕ → AuditRow
alarm pots t = record {
  event_type = EventType.pot_reinit_suspected;
  entity = machine;
  before = none;
  after = reverted_pots pots;
  success = false;
  occurred_at = t;
}

-- The alarm's row, if the pots reverted are enough.
abbrev pub reinit_audit : List ℕ → ℕ → List AuditRow
reinit_audit pots t = if leb reinit_min_pots (length pots) then alarm pots t ∷ [] else []

unfoldable pub persist : MachineSnapshot → Mirror → PersistResult × Mirror
persist snapshot m =
    let polled_at = snapshot.polled_at in
    let active = presetter_active snapshot m in
    let d_off =
      diff_offsets active (load (offset_domain active) m.offsets) snapshot.offsets polled_at in
    let cur_pots = load pot_domain m.pots in
    let d_pot = diff_pots cur_pots snapshot.pots polled_at in
    let pots = detect_pot_reinit cur_pots snapshot.pots in
    let d_macro = diff_macros (load macro_domain m.macros) snapshot.macros polled_at in
    let d_tl = diff_tool_life (load life_domain m.tool_life) snapshot.tool_life polled_at in
    let (status_param, changed) = diff_status (load_status m.status) snapshot.status polled_at in
    let d_wo =
      diff_work_offsets (load work_domain m.work_offsets) snapshot.work_offsets polled_at in
    (
      record {
        offsets_observed = length d_off.upsert_params;
        offsets_changed = length d_off.audits;
        pots_observed = length d_pot.upsert_params;
        pots_changed = length d_pot.audits;
        tool_life_observed = length d_tl.upsert_params;
        tool_life_changed = length d_tl.audits;
        macros_observed = length d_macro.upsert_params;
        macros_changed = length d_macro.audits;
        pot_reinit_suspected = leb reinit_min_pots (length pots);
        status_changed = changed;
        work_offsets_observed = length d_wo.upsert_params;
        work_offsets_changed = length d_wo.audits;
      },
      record {
        offsets = upsert (offset_domain active).update d_off.upsert_params m.offsets;
        pots = upsert pot_domain.update d_pot.upsert_params m.pots;
        macros = upsert macro_domain.update d_macro.upsert_params m.macros;
        tool_life = upsert life_domain.update d_tl.upsert_params m.tool_life;
        status = some (upsert_status status_param m.status);
        work_offsets = upsert work_domain.update d_wo.upsert_params m.work_offsets;
        audit =
            m.audit
            ++ (d_off.audits
                ++ d_pot.audits
                ++ d_macro.audits
                ++ d_tl.audits
                ++ d_wo.audits
                ++ reinit_audit pots polled_at);
      },
    )
