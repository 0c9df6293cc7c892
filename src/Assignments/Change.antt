-- ===== src/Assignments/Change.antt =====
-- apps/tooling/api/services/assignments.py: the changes of an assignment that is there.
use pottracker.Prelude.{ℕ, true, false, Option, none, some, if◌then◌else◌, nat_eq}
use pottracker.Prelude.Dict.{lookup}
use pottracker.Api.{ApiError, not_found, conflict, Machine}
use pottracker.Assignments.{
  Assignment, AssignmentUpdate, Tool, Session, Detail, Reply, done, failed, integrity_error,
  assignment_missing, machine_missing, tool_missing, deleted, already_deleted, register_changed,
  is_none, get, insert_row, validate_registers,
}

-- `changes.get(field, current)`
abbrev or_current : Option (Option ℕ) → Option ℕ → Option ℕ
or_current none current = current
or_current (some value) current = value

abbrev pub moved : Assignment → ℕ → ℕ → Option ℕ → Assignment
moved row t h d = record row {
  t_number = t;
  h_register = h;
  d_register = d;
  pending_review = true;
  pending_reason = some register_changed;
}

-- The columns t_number and h_register are NOT NULL.
abbrev store :
    ℕ → Assignment → Option ℕ → Option ℕ → Option ℕ → Session → Reply Assignment × Session
store id row (some t) (some h) d db =
    let db' = insert_row id (moved row t h d) db in (get id db', db')
store id row none _ d db = (integrity_error, db)
store id row (some t) none d db = (integrity_error, db)

abbrev pub update_valid :
    ℕ
    → Assignment
    → Option ℕ
    → Option ℕ
    → Option ℕ
    → Option (ApiError Detail)
    → Session
    → Reply Assignment × Session
update_valid id row t h d (some error) db = (failed error, db)
update_valid id row t h d none db = store id row t h d db

-- The tool's row is there by the foreign key.
abbrev pub update_on :
    ℕ
    → Assignment
    → AssignmentUpdate
    → Option Machine
    → Option Tool
    → Session
    → Reply Assignment × Session
update_on id row body none _ db = (failed (not_found machine_missing), db)
update_on id row body (some machine) none db = (failed (not_found tool_missing), db)
update_on id row body (some machine) (some tool) db =
    let t = or_current body.t_number (some row.t_number) in
    let h = or_current body.h_register (some row.h_register) in
    let d = or_current body.d_register row.d_register in
    update_valid id row t h d (validate_registers row.machine_id machine tool t h d (some id) db) db

abbrev pub update_row :
    ℕ → AssignmentUpdate → Option Assignment → Session → Reply Assignment × Session
update_row id body none db = (failed (not_found assignment_missing), db)
update_row id body (some row) db =
    if is_none row.deleted_at
    then update_on id row body (lookup row.machine_id db.machines) (lookup row.tool_id db.tools) db
    else (failed (conflict deleted), db)

unfoldable pub update : ℕ → AssignmentUpdate → Session → Reply Assignment × Session
update id body db = update_row id body (lookup id db.assignments) db

abbrev pub confirm_row : ℕ → ℕ → ℕ → Option Assignment → Session → Reply Assignment × Session
confirm_row id by now none db = (failed (not_found assignment_missing), db)
confirm_row id by now (some row) db =
    let db' =
      insert_row id
        (record row {
          pending_review = false;
          pending_reason = none;
          last_confirmed_at = some now;
          last_confirmed_by = some by;
        })
        db in
    if is_none row.deleted_at then (get id db', db') else (failed (conflict deleted), db)

unfoldable pub confirm : ℕ → ℕ → ℕ → Session → Reply Assignment × Session
confirm id confirmed_by now db = confirm_row id confirmed_by now (lookup id db.assignments) db

abbrev pub delete_row : ℕ → ℕ → Option Assignment → Session → Reply Unit × Session
delete_row id now none db = (failed (not_found assignment_missing), db)
delete_row id now (some row) db =
    if is_none row.deleted_at
    then (done tt, insert_row id (record row { deleted_at = some now }) db)
    else (failed (conflict already_deleted), db)

unfoldable pub soft_delete : ℕ → ℕ → Session → Reply Unit × Session
soft_delete id now db = delete_row id now (lookup id db.assignments) db
