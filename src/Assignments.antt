-- ===== src/Assignments.antt =====
-- apps/tooling/api/services/assignments.py: which tool answers to which registers of a machine.
use pottracker.Prelude.{
  ℕ, String, Bool, true, false, not, ◌&&◌, Option, none, some, List, [], ◌∷◌, if◌then◌else◌, eqb,
  ◌==◌, nat_eq, option_eq, any_of,
}
use pottracker.Prelude.Dict.{Dict, lookup, insert}
use pottracker.Api.{ApiError, not_found, conflict, unprocessable, Machine}
pub mod Change
pub mod Unique
pub mod Preserved

pub data PendingReason : Type 0 where
  awaiting_confirmation register_changed : PendingReason

-- A row of tooling.assignment, less the cached values.
pub record Assignment : Type 0 where
  pub tool_id : ℕ
  pub machine_id : ℕ
  pub t_number : ℕ
  pub h_register : ℕ
  pub d_register : Option ℕ
  pub pending_review : Bool
  pub pending_reason : Option PendingReason
  pub assigned_by : Option ℕ
  pub last_confirmed_at : Option ℕ
  pub last_confirmed_by : Option ℕ
  pub deleted_at : Option ℕ

pub record Tool : Type 0 where
  pub requires_tsc : Bool
  pub retired_at : Option ℕ

pub record Session : Type 0 where
  pub tools : Dict ℕ Tool
  pub machines : Dict ℕ Machine
  pub assignments : Dict ℕ Assignment

pub data Detail : Type 0 where
  assignment_missing tool_missing machine_missing tool_retired machine_disabled : Detail
  probe_t probe_h t_taken h_taken d_taken no_tsc deleted already_deleted : Detail

-- A value returned, an error of the API, or the database's refusal of a NULL.
pub data Reply (A : Type 0) : Type 0 where
  done : A → Reply A
  failed : ApiError Detail → Reply A
  integrity_error : Reply A

pub record AssignmentCreate : Type 0 where
  pub tool_id : ℕ
  pub machine_id : ℕ
  pub t_number : ℕ
  pub h_register : ℕ
  pub d_register : Option ℕ

-- A field that the body leaves out is `none`; `some none` is an explicit null.
pub record AssignmentUpdate : Type 0 where
  pub t_number : Option (Option ℕ)
  pub h_register : Option (Option ℕ)
  pub d_register : Option (Option ℕ)

abbrev pub is_none : Option ℕ → Bool
is_none none = true
is_none (some _) = false

-- `get`, whose joins find the tool and the machine that the foreign keys name.
unfoldable pub get : ℕ → Session → Reply Assignment
get assignment_id db = elim (lookup assignment_id db.assignments) [
  | none ↦ failed (not_found assignment_missing)
  | some row ↦ done row
]

-- A row of the query of `_active_conflict`.
abbrev pub is_conflict : ℕ → (Assignment → Option ℕ) → ℕ → Option ℕ → ℕ × Assignment → Bool
is_conflict machine_id col value exclude row =
    eqb row.1.machine_id machine_id
    && col row.1 == some value
    && is_none row.1.deleted_at
    && not (exclude == some row.0)

pub active_conflict : ℕ → (Assignment → Option ℕ) → Option ℕ → Option ℕ → Session → Bool
active_conflict machine_id col none exclude db = false
active_conflict machine_id col (some value) exclude db =
    any_of (is_conflict machine_id col value exclude) db.assignments

-- `probe is not None and value == probe`
abbrev pub is_probe : Option ℕ → Option ℕ → Bool
is_probe none value = false
is_probe (some probe) value = value == some probe

abbrev pub t_column : Assignment → Option ℕ
t_column row = some row.t_number

abbrev pub h_column : Assignment → Option ℕ
h_column row = some row.h_register

abbrev pub d_column : Assignment → Option ℕ
d_column row = row.d_register

-- The error raised, if one is.
pub validate_registers :
    ℕ
    → Machine
    → Tool
    → Option ℕ
    → Option ℕ
    → Option ℕ
    → Option ℕ
    → Session
    → Option (ApiError Detail)
validate_registers machine_id machine tool t_number h_register d_register exclude db =
    if is_probe machine.probe_t_number t_number
    then some (unprocessable probe_t)
    else if is_probe machine.probe_h_register h_register
    then some (unprocessable probe_h)
    else if active_conflict machine_id t_column t_number exclude db
    then some (conflict t_taken)
    else if active_conflict machine_id h_column h_register exclude db
    then some (conflict h_taken)
    else if active_conflict machine_id d_column d_register exclude db
    then some (conflict d_taken)
    else if tool.requires_tsc && not machine.has_tsc
    then some (unprocessable no_tsc)
    else none

abbrev pub load_tool : Option Tool → Reply Tool
load_tool none = failed (not_found tool_missing)
load_tool (some row) =
    if is_none row.retired_at then done row else failed (unprocessable tool_retired)

abbrev pub load_machine : Bool → Option Machine → Reply Machine
load_machine require_enabled none = failed (not_found machine_missing)
load_machine require_enabled (some row) =
    if require_enabled && not row.enabled then failed (unprocessable machine_disabled) else done row

abbrev pub insert_row : ℕ → Assignment → Session → Session
insert_row id row db = record db { assignments = insert id row db.assignments }

abbrev pub new_row : AssignmentCreate → ℕ → Assignment
new_row body assigned_by = record {
  tool_id = body.tool_id;
  machine_id = body.machine_id;
  t_number = body.t_number;
  h_register = body.h_register;
  d_register = body.d_register;
  pending_review = true;
  pending_reason = some awaiting_confirmation;
  assigned_by = some assigned_by;
  last_confirmed_at = none;
  last_confirmed_by = none;
  deleted_at = none;
}

abbrev pub create_valid :
    ℕ → AssignmentCreate → ℕ → Option (ApiError Detail) → Session → Reply Assignment × Session
create_valid new_id body assigned_by (some error) db = (failed error, db)
create_valid new_id body assigned_by none db =
    let db' = insert_row new_id (new_row body assigned_by) db in (get new_id db', db')

abbrev pub create_on :
    ℕ → AssignmentCreate → ℕ → Reply Tool → Reply Machine → Session → Reply Assignment × Session
create_on new_id body assigned_by (done tool) (done machine) db =
    create_valid new_id body assigned_by
      (validate_registers body.machine_id machine tool (some body.t_number) (some body.h_register)
        body.d_register none db)
      db
create_on new_id body assigned_by (failed error) _ db = (failed error, db)
create_on new_id body assigned_by integrity_error _ db = (integrity_error, db)
create_on new_id body assigned_by (done tool) (failed error) db = (failed error, db)
create_on new_id body assigned_by (done tool) integrity_error db = (integrity_error, db)

-- `new_id` is the id that the database makes for the row.
unfoldable pub create : ℕ → AssignmentCreate → ℕ → Session → Reply Assignment × Session
create new_id body assigned_by db =
    create_on new_id body assigned_by (load_tool (lookup body.tool_id db.tools))
      (load_machine true (lookup body.machine_id db.machines)) db
