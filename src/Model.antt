-- ===== src/Model.antt =====
-- shared/focas/models.py: the shapes that are read from a control.
use pottracker.Prelude.{ℕ, String, Bool, Option, List, Eq, ℕ_discrete}
use pottracker.Decimal.{Decimal}

pub data RegisterType : Type 0 where
  h_geom h_wear d_geom d_wear x_geom x_wear z_geom z_wear r_geom r_wear tip : RegisterType

unfoldable pub RegisterType-discrete : Discrete RegisterType
RegisterType-discrete = hlevel

instance abbrev pub register_type_eq : Eq RegisterType
register_type_eq = record { dec = RegisterType-discrete }

-- The pair of a register's number and type, a key of the offset tables.
abbrev pub RegisterKey : Type 0
RegisterKey = ℕ × RegisterType

unfoldable pub RegisterKey-discrete : Discrete RegisterKey
RegisterKey-discrete = hlevel (ℕ_discrete, RegisterType-discrete)

instance abbrev pub register_key_eq : Eq RegisterKey
register_key_eq = record { dec = RegisterKey-discrete }

pub data MachineMode : Type 0 where
  mdi mem edit hnd jog ref auto unknown : MachineMode

unfoldable pub MachineMode-discrete : Discrete MachineMode
MachineMode-discrete = hlevel

instance abbrev pub machine_mode_eq : Eq MachineMode
machine_mode_eq = record { dec = MachineMode-discrete }

pub data ToolLifeStatus : Type 0 where
  live expired skipped : ToolLifeStatus

pub record OffsetRegister : Type 0 where
  pub register_number : ℕ
  pub register_type : RegisterType
  pub value_mm : Decimal

-- `none` is a pot that reports no tool.
pub record PotEntry : Type 0 where
  pub pot_number : ℕ
  pub t_number : Option ℕ

-- `none` is a vacant variable.
pub record MacroVariable : Type 0 where
  pub number : ℕ
  pub value : Option Decimal

pub record ToolLife : Type 0 where
  pub t_number : ℕ
  pub life_count : Option ℕ
  pub life_max : Option ℕ
  pub status : Option ToolLifeStatus

pub data WorkOffsetSlot : Type 0 where
  work_shift ext g54 g55 g56 g57 g58 g59 : WorkOffsetSlot

-- The pattern `^[xz]$` of the field `axis`.
pub data Axis : Type 0 where
  x z : Axis

pub record WorkOffsetEntry : Type 0 where
  pub slot : WorkOffsetSlot
  pub axis : Axis
  pub value : Decimal

pub record MachineStatus : Type 0 where
  pub mode : MachineMode
  pub running : Bool
  pub emergency_stop : Bool
  pub current_t_number : Option ℕ
  pub next_t_number : Option ℕ
  pub active_wcs : Option String
  pub program_number : Option ℕ
  pub program_name : Option String

-- Times are numbers: only their order and equality are used. Alarms are carried and never read.
-- The validators, which raise on a key that stands twice, are not applied when a snapshot is built:
-- Mirror/Observed states what they ask for as a condition, with the same for tool life and work offsets.
pub record MachineSnapshot : Type 0 where
  pub machine_id : String
  pub polled_at : ℕ
  pub status : MachineStatus
  pub offsets : List OffsetRegister
  pub pots : List PotEntry
  pub tool_life : List ToolLife
  pub macros : List MacroVariable
  pub work_offsets : List WorkOffsetEntry
