-- ===== src/Mirror/Rows.antt =====
-- The tables of shared/db.py as the rows of one machine: each query of the poll names the machine.
use pottracker.Prelude.{ℕ, String, Bool, Option, List, Eq, ℕ_discrete}
use pottracker.Prelude.Dict.{Dict}
use pottracker.Decimal.{Decimal}
use pottracker.Model.{RegisterKey, MachineMode, ToolLifeStatus, WorkOffsetSlot, Axis}

-- A mirrored value with its two times.
pub record Tracked (V : Type 0) : Type 0 where
  pub value : V
  pub last_polled_at : ℕ
  pub last_changed_at : ℕ

abbrev pub WorkKey : Type 0
WorkKey = WorkOffsetSlot × Axis

unfoldable pub WorkOffsetSlot-discrete : Discrete WorkOffsetSlot
WorkOffsetSlot-discrete = hlevel

unfoldable pub Axis-discrete : Discrete Axis
Axis-discrete = hlevel

unfoldable pub WorkKey-discrete : Discrete WorkKey
WorkKey-discrete = hlevel (WorkOffsetSlot-discrete, Axis-discrete)

instance abbrev pub work_key_eq : Eq WorkKey
work_key_eq = record { dec = WorkKey-discrete }

-- (life_count, life_max, status)
pub record Life : Type 0 where
  pub life_count : Option ℕ
  pub life_max : Option ℕ
  pub status : Option ToolLifeStatus

unfoldable pub ToolLifeStatus-discrete : Discrete ToolLifeStatus
ToolLifeStatus-discrete = hlevel

unfoldable pub Life-discrete : Discrete Life
Life-discrete = hlevel (ToolLifeStatus-discrete, ℕ_discrete)

instance abbrev pub life_eq : Eq Life
life_eq = record { dec = Life-discrete }

-- The table of tool life has no last_changed_at.
pub record LifeRow : Type 0 where
  pub life : Life
  pub last_polled_at : ℕ

-- The fields of a status that take part in the detection of a change.
pub record StatusState : Type 0 where
  pub head_t_number : Option ℕ
  pub next_t_number : Option ℕ
  pub mode : MachineMode
  pub running : Bool
  pub emergency_stop : Bool
  pub active_wcs : Option String
  pub program_number : Option ℕ

pub record StatusRow : Type 0 where
  pub state : StatusState
  pub program_name : Option String
  pub last_tool_t_word : Option ℕ
  pub last_tool_at : Option ℕ
  pub last_polled_at : ℕ
  pub last_changed_at : ℕ

-- event_type, which fixes the entity_type.
pub data EventType : Type 0 where
  offset_change pot_move tool_life_change macro_change pot_reinit_suspected work_offset_change :
      EventType

pub data Entity : Type 0 where
  offset : RegisterKey → Entity
  pot tool macro_var : ℕ → Entity
  work : WorkKey → Entity
  machine : Entity

pub data Source : Type 0 where
  presetter_verified manual_edit : Source

unfoldable pub Source-discrete : Discrete Source
Source-discrete = hlevel

instance abbrev pub source_eq : Eq Source
source_eq = record { dec = Source-discrete }

-- The JSON of before_value and after_value.
pub data Payload : Type 0 where
  value_mm : Decimal → Option Source → Payload
  t_number : Option ℕ → Payload
  value : Option Decimal → Payload
  tool_life : Life → Payload
  work_value : Decimal → Payload
  reverted_pots : List ℕ → Payload

-- A row of shared.audit_log that a poll writes. `before` is `none` for JSON null.
pub record AuditRow : Type 0 where
  pub event_type : EventType
  pub entity : Entity
  pub before : Option Payload
  pub after : Payload
  pub success : Bool
  pub occurred_at : ℕ

pub record Mirror : Type 0 where
  pub offsets : Dict RegisterKey (Tracked Decimal)
  pub pots : Dict ℕ (Tracked (Option ℕ))
  pub macros : Dict ℕ (Tracked (Option Decimal))
  pub tool_life : Dict ℕ LifeRow
  pub status : Option StatusRow
  pub work_offsets : Dict WorkKey (Tracked Decimal)
  pub audit : List AuditRow
