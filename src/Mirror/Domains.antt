-- ===== src/Mirror/Domains.antt =====
-- snapshot_diff.py: macros, work offsets, tool life and the row of the status.
use pottracker.Prelude.{
  ℕ, ◌%◌, Bool, true, false, not, ◌&&◌, Option, none, some, List, ◌==◌, if◌then◌else◌, leb, eqb,
  option_eq, option_string_eq, nat_eq,
}
use pottracker.Prelude.Dict.{Dict}
use pottracker.Decimal.{Decimal, dec_eq}
use pottracker.Model.{MacroVariable, ToolLife, WorkOffsetEntry, MachineStatus, machine_mode_eq}
use pottracker.OffsetWrite.Defs.{numeric_10_4}
use pottracker.Mirror.Rows.{
  Tracked, WorkKey, Life, LifeRow, StatusState, StatusRow, tool_life_change, macro_change,
  work_offset_change, tool, macro_var, work, value, tool_life, work_value, AuditRow, life_eq,
  work_key_eq,
}
use pottracker.Mirror.Diff.{DomainDiff, Domain, diff, tracked_row, advance, same_nullable}

abbrev macro_event : MacroVariable → Option (Option Decimal) → ℕ → AuditRow
macro_event m old t = record {
  event_type = macro_change;
  entity = macro_var m.number;
  before = elim old [ none ↦ none | some v ↦ some (value v) ];
  after = value m.value;
  success = true;
  occurred_at = t;
}

-- The column is an unconstrained NUMERIC, which keeps every digit.
abbrev pub macro_domain : Domain MacroVariable ℕ (Option Decimal) (Tracked (Option Decimal))
macro_domain = record {
  key = λ m. m.number;
  value_of = λ m. m.value;
  same = same_nullable;
  row = tracked_row (λ v. v);
  stored = λ r. r.value;
  update = advance same_nullable;
  event = macro_event;
}

unfoldable pub diff_macros :
    Dict ℕ (Option Decimal) → List MacroVariable → ℕ → DomainDiff ℕ (Tracked (Option Decimal))
diff_macros current incoming polled_at = diff macro_domain current incoming polled_at

abbrev work_event : WorkOffsetEntry → Option Decimal → ℕ → AuditRow
work_event entry old t = record {
  event_type = work_offset_change;
  entity = work (entry.slot, entry.axis);
  before = elim old [ none ↦ none | some v ↦ some (work_value v) ];
  after = work_value entry.value;
  success = true;
  occurred_at = t;
}

-- The column is a NUMERIC(12, 4), which rounds as a NUMERIC(10, 4) does.
abbrev pub work_domain : Domain WorkOffsetEntry WorkKey Decimal (Tracked Decimal)
work_domain = record {
  key = λ entry. (entry.slot, entry.axis);
  value_of = λ entry. entry.value;
  same = dec_eq;
  row = tracked_row numeric_10_4;
  stored = λ r. r.value;
  update = advance dec_eq;
  event = work_event;
}

unfoldable pub diff_work_offsets :
    Dict WorkKey Decimal → List WorkOffsetEntry → ℕ → DomainDiff WorkKey (Tracked Decimal)
diff_work_offsets current incoming polled_at = diff work_domain current incoming polled_at

abbrev life_of : ToolLife → Life
life_of tl = record { life_count = tl.life_count; life_max = tl.life_max; status = tl.status }

abbrev life_event : ToolLife → Option Life → ℕ → AuditRow
life_event tl old t = record {
  event_type = tool_life_change;
  entity = tool tl.t_number;
  before = elim old [ none ↦ none | some v ↦ some (tool_life v) ];
  after = tool_life (life_of tl);
  success = true;
  occurred_at = t;
}

abbrev pub life_domain : Domain ToolLife ℕ Life LifeRow
life_domain = record {
  key = λ tl. tl.t_number;
  value_of = life_of;
  same = λ a b. a == b;
  row = λ v t. record { life = v; last_polled_at = t };
  stored = λ r. r.life;
  update = λ old excluded. excluded;
  event = life_event;
}

unfoldable pub diff_tool_life : Dict ℕ Life → List ToolLife → ℕ → DomainDiff ℕ LifeRow
diff_tool_life current incoming polled_at = diff life_domain current incoming polled_at

-- `t_word` if its two low digits, the offset, are not 00.
unfoldable pub last_real_t_word : Option ℕ → Option ℕ
last_real_t_word none = none
last_real_t_word (some t_word) =
    if leb 100 t_word && not (eqb (t_word % 100) 0) then some t_word else none

abbrev state_of : MachineStatus → StatusState
state_of incoming = record {
  head_t_number = incoming.current_t_number;
  next_t_number = incoming.next_t_number;
  mode = incoming.mode;
  running = incoming.running;
  emergency_stop = incoming.emergency_stop;
  active_wcs = incoming.active_wcs;
  program_number = incoming.program_number;
}

abbrev same_bool : Bool → Bool → Bool
same_bool true b = b
same_bool false b = not b

-- `current == new`, field by field, as the statement's `is_distinct_from` compares them too.
pub same_state : StatusState → StatusState → Bool
same_state a b =
    a.head_t_number == b.head_t_number
    && a.next_t_number == b.next_t_number
    && a.mode == b.mode
    && same_bool a.running b.running
    && same_bool a.emergency_stop b.emergency_stop
    && a.active_wcs == b.active_wcs
    && a.program_number == b.program_number

abbrev state_changed : Option StatusState → StatusState → Bool
state_changed none new = true
state_changed (some old) new = not (same_state old new)

unfoldable pub diff_status : Option StatusState → MachineStatus → ℕ → StatusRow × Bool
diff_status current incoming polled_at =
    let real_t = last_real_t_word incoming.current_t_number in
    (
      record {
        state = state_of incoming;
        program_name = incoming.program_name;
        last_tool_t_word = real_t;
        last_tool_at = elim real_t [ none ↦ none | some _ ↦ some polled_at ];
        last_polled_at = polled_at;
        last_changed_at = polled_at;
      },
      state_changed current (state_of incoming),
    )
