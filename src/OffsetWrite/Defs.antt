-- ===== src/OffsetWrite/Defs.antt =====
-- offset_write.py: the rows, the target's interface, and each operation with all its branches.
use pottracker.Prelude.{
  ℕ, String, Bool, true, false, not, ◌&&◌, Option, none, some, List, [], ◌∷◌, ◌++◌, if◌then◌else◌,
  eqb, ◌==◌, string_eq, nat_eq,
}
use pottracker.Prelude.Dict.{Dict, lookup, insert}
use pottracker.Decimal.{Decimal, dec_eq, quantize, half_up}
use pottracker.Model.{RegisterType, MachineStatus}
use pottracker.OffsetMath.{OffsetMathError, assert_writable, within_bounds, is_large_diff}
use pottracker.Text.{strip}
use pottracker.WriteSafety.{Reason, WriteAuthorization, authorize_write}
use pottracker.Api.{
  not_found, conflict, unprocessable, forbidden, unhandled, Result, ok, err, Machine,
}

-- The `detail` of the errors that this service raises.
pub data Detail : Type 0 where
  request_missing machine_missing out_of_envelope reason_required probe_locked : Detail
  not_writable : OffsetMathError → Detail
  type_error already_executed register_changed out_of_bounds ack_required write_rejected
        not_verified :
      Detail
  refused : Reason → Detail

-- What the columns `error` of a request and of an audit row say.
pub data ErrorText : Type 0 where
  blocked : Reason → ErrorText
  drift : Decimal → Option Decimal → ErrorText
  rejected : ErrorText
  mismatch : Decimal → Decimal → ErrorText

-- A row of tooling.offset_write_request.
pub record Request : Type 0 where
  pub machine_id : ℕ
  pub register_number : ℕ
  pub register_type : RegisterType
  pub intended_value_mm : Decimal
  pub current_value_mm : Option Decimal
  pub reason : String
  pub requested_by : ℕ
  pub confirmed_by : Option ℕ
  pub confirmed_at : Option ℕ
  pub executed_at : Option ℕ
  pub verified_value_mm : Option Decimal
  pub success : Option Bool
  pub error : Option ErrorText

-- A row of shared.audit_log with event_type "offset_write" and entity_type "offset"; the entity_id is
-- the register's number and type.
pub record AuditEntry : Type 0 where
  pub register_number : ℕ
  pub register_type : RegisterType
  pub machine_id : ℕ
  pub user_id : ℕ
  pub before_value : Option Decimal
  pub after_value : Option Decimal
  pub reason : String
  pub success : Bool
  pub error : Option ErrorText

-- The protocol OffsetWriteTarget over a memory `S`. A write tells whether it raised.
pub record OffsetWriteTarget (S : Type 0) : Type 0 where
  pub read_offset : S → ℕ → RegisterType → Decimal
  pub write_offset : S → ℕ → RegisterType → Decimal → S × Bool

pub record Session (S : Type 0) : Type 0 where
  pub machines : Dict ℕ Machine
  pub requests : Dict ℕ Request
  pub audit : List AuditEntry
  pub device : S

-- The keyword arguments of `execute_request`; of the settings, the configured password is read.
pub record Attempt : Type 0 where
  pub executing_user : ℕ
  pub status : MachineStatus
  pub approved : Bool
  pub password_attempt : String
  pub configured : String
  pub large_diff_acknowledged : Bool

unfoldable pub is_probe_target : Machine → ℕ → Bool
is_probe_target machine register_number = elim machine.probe_h_register [
  | none ↦ false
  | some p ↦ eqb register_number p
]

-- A column NUMERIC(10, 4): the database keeps four places, rounded half away from zero.
abbrev pub numeric_10_4 : Decimal → Decimal
numeric_10_4 v = quantize half_up v 4

abbrev pub is_some {ℓ} : {A : Type ℓ} → Option A → Bool
is_some none = false
is_some (some _) = true

-- The test of step 2: a value captured at request time that is no longer the live one.
abbrev pub has_drifted : Option Decimal → Decimal → Bool
has_drifted none live = false
has_drifted (some captured) live = not (dec_eq live captured)

-- The row after a verified write.
abbrev pub executed : Request → ℕ → ℕ → Decimal → Request
executed row user_id now verified = record row {
  confirmed_by = some user_id;
  confirmed_at = some now;
  executed_at = some now;
  verified_value_mm = some verified;
  success = some true;
  error = none;
}

module _ {S : Type 0} where
  unfoldable pub audit_row :
      Request → ℕ → Bool → Option ErrorText → Option Decimal → Session S → Session S
  audit_row row user_id success error after db = record db {
    audit =
        db.audit
        ++ (record {
          register_number = row.register_number;
          register_type = row.register_type;
          machine_id = row.machine_id;
          user_id = user_id;
          before_value = row.current_value_mm;
          after_value = after;
          reason = row.reason;
          success = success;
          error = error;
        })
          ∷ [];
  }

  -- `_fail`, whose `exc_cls` is `Conflict` at each call.
  unfoldable pub fail :
      ℕ
      → ℕ
      → ℕ
      → Request
      → ErrorText
      → Option Decimal
      → Detail
      → Session S
      → Result Detail Request × Session S
  unfolding audit_row
  fail request_id user_id now row error verified detail db = (
    err (conflict detail),
    audit_row row user_id false (some error) none (record db {
      requests =
          insert request_id
            (record row {
              confirmed_by = some user_id;
              confirmed_at = some now;
              executed_at = some now;
              verified_value_mm = verified;
              success = some false;
              error = some error;
            })
            db.requests;
    }),
  )

  unfoldable pub get_row : ℕ → Session S → Result Detail Request
  get_row request_id db = elim (lookup request_id db.requests) [
    | none ↦ err (not_found request_missing)
    | some row ↦ ok row
  ]

module _ {S : Type 0} (target : OffsetWriteTarget S) where
  unfoldable pub stage :
      ℕ
      → ℕ
      → ℕ
      → RegisterType
      → Decimal
      → String
      → ℕ
      → Option Machine
      → Session S
      → Result Detail ℕ × Session S
  stage new_id machine_id register_number register_type intended reason requested_by none db =
      (err (not_found machine_missing), db)
  stage new_id machine_id register_number register_type intended reason requested_by (some machine)
        db =
      if is_probe_target machine register_number then (err (unprocessable probe_locked), db) else (
        ok new_id,
        record db {
          requests =
              insert new_id
                (record {
                  machine_id = machine_id;
                  register_number = register_number;
                  register_type = register_type;
                  intended_value_mm = numeric_10_4 intended;
                  current_value_mm =
                      some
                        (numeric_10_4 (target.read_offset db.device register_number register_type));
                  reason = strip reason;
                  requested_by = requested_by;
                  confirmed_by = none;
                  confirmed_at = none;
                  executed_at = none;
                  verified_value_mm = none;
                  success = none;
                  error = none;
                })
                db.requests;
        },
      )

  unfoldable pub stage_writable :
      ℕ
      → ℕ
      → ℕ
      → RegisterType
      → Decimal
      → String
      → ℕ
      → Option OffsetMathError
      → Session S
      → Result Detail ℕ × Session S
  unfolding stage
  stage_writable new_id machine_id register_number register_type intended reason requested_by
        (some exc) db =
      (err (unprocessable (not_writable exc)), db)
  stage_writable new_id machine_id register_number register_type intended reason requested_by none
        db =
      if not (within_bounds intended)
      then (err (unprocessable out_of_envelope), db)
      else if strip reason == ""
      then (err (unprocessable reason_required), db)
      else stage new_id machine_id register_number register_type intended reason requested_by
          (lookup machine_id db.machines) db

  -- `new_id` is the id that the database makes for the row.
  unfoldable pub create_request :
      ℕ → ℕ → ℕ → RegisterType → Decimal → String → ℕ → Session S → Result Detail ℕ × Session S
  unfolding stage_writable
  create_request new_id machine_id register_number register_type intended reason requested_by db =
      stage_writable new_id machine_id register_number register_type intended reason requested_by
        (assert_writable register_type) db

  -- The read-after-write verification, after a write that did not raise.
  unfoldable pub verify_write :
      Attempt → ℕ → ℕ → Request → Session S → Result Detail Request × Session S
  unfolding fail audit_row
  verify_write a request_id now row db =
      let intended = row.intended_value_mm in
      let verified = target.read_offset db.device row.register_number row.register_type in
      if not (dec_eq verified intended)
      then fail request_id a.executing_user now row (mismatch intended verified) (some verified)
          not_verified db
      else let db' = audit_row row a.executing_user true none (some verified) (record db {
        requests = insert request_id (executed row a.executing_user now verified) db.requests;
      }) in
        (get_row request_id db', db')

  -- Step 4: the write.
  unfoldable pub perform_write :
      Attempt → ℕ → ℕ → Request → Session S → Result Detail Request × Session S
  unfolding verify_write
  perform_write a request_id now row db =
      let (device', raised) =
        target.write_offset db.device row.register_number row.register_type row.intended_value_mm in
      if raised
      then fail request_id a.executing_user now row rejected none write_rejected
          (record db { device = device' })
      else verify_write a request_id now row (record db { device = device' })

  -- Steps 2 and 3, before the write.
  unfoldable pub check_and_write :
      Attempt → ℕ → ℕ → Request → Session S → Result Detail Request × Session S
  unfolding perform_write
  check_and_write a request_id now row db =
      let live = target.read_offset db.device row.register_number row.register_type in
      let intended = row.intended_value_mm in
      if has_drifted row.current_value_mm live
      then fail request_id a.executing_user now row (drift live row.current_value_mm) (some live)
          register_changed db
      else if not (within_bounds intended)
      then (err (unprocessable out_of_bounds), db)
      else if is_large_diff live intended && not a.large_diff_acknowledged
      then (err (unprocessable ack_required), db)
      else perform_write a request_id now row db

  -- What follows the gate: a block leaves the row pending; the gate's TypeError is caught by nobody.
  unfoldable pub gated :
      Attempt
      → ℕ
      → ℕ
      → Request
      → Option WriteAuthorization
      → Session S
      → Result Detail Request × Session S
  unfolding check_and_write
  gated a request_id now row none db = (err (unhandled type_error), db)
  gated a request_id now row (some auth) db =
      if not auth.permitted
      then (
        err (forbidden (refused auth.reason)),
        audit_row row a.executing_user false (some (blocked auth.reason)) none db,
      )
      else check_and_write a request_id now row db

  -- Step 1: the gate.
  unfoldable pub gate_and_execute :
      Attempt → ℕ → ℕ → Request → Machine → Session S → Result Detail Request × Session S
  unfolding gated is_probe_target
  gate_and_execute a request_id now row machine db =
      gated a request_id now row
        (authorize_write a.status (is_probe_target machine row.register_number) a.approved
          a.password_attempt a.configured)
        db

  unfoldable pub with_machine :
      Attempt → ℕ → ℕ → Request → Option Machine → Session S → Result Detail Request × Session S
  with_machine a request_id now row none db = (err (not_found machine_missing), db)
  with_machine a request_id now row (some machine) db =
      gate_and_execute a request_id now row machine db

  unfoldable pub with_row :
      Attempt → ℕ → ℕ → Option Request → Session S → Result Detail Request × Session S
  with_row a request_id now none db = (err (not_found request_missing), db)
  with_row a request_id now (some row) db =
      if is_some row.executed_at
      then (err (conflict already_executed), db)
      else with_machine a request_id now row (lookup row.machine_id db.machines) db

  -- `now` is the time at which this request is executed.
  unfoldable pub execute_request : Attempt → ℕ → ℕ → Session S → Result Detail Request × Session S
  execute_request a request_id now db = with_row a request_id now (lookup request_id db.requests) db
