-- ===== src/OffsetWrite/Run.antt =====
-- Every way in which an execution of a request can go, with the tests that lead there.
use pottracker.Prelude.{
  ℕ, ◌≡◌, refl, sym, ◌∙◌, ap, subst, arith, Bool, true, false, not, ◌&&◌, Option, none, some,
  if_elim, nat_eq,
}
use pottracker.Prelude.Dict.{Dict, lookup, insert, lookup-insert_self}
use pottracker.Decimal.{Decimal, dec_eq}
use pottracker.OffsetMath.{within_bounds, is_large_diff}
use pottracker.WriteSafety.{WriteAuthorization, authorize_write}
use pottracker.WriteSafety.Gate.{permits}
use pottracker.Api.{
  not_found, conflict, unprocessable, forbidden, unhandled, Result, ok, err, Machine,
}
use pottracker.OffsetWrite.Defs.{
  Detail, request_missing, machine_missing, type_error, gated, already_executed, register_changed,
  out_of_bounds, ack_required, write_rejected, not_verified, refused, ErrorText, Request,
  OffsetWriteTarget, Session, Attempt, is_probe_target, audit_row, fail, get_row, executed,
  verify_write, perform_write, has_drifted, check_and_write, gate_and_execute, with_machine,
  with_row, execute_request, is_some,
}

not-false : (b : Bool) → not b ≡ false → b ≡ true
not-false b h = ground arith

abbrev pub authorization : Attempt → Machine → Request → Option WriteAuthorization
authorization a machine row =
    authorize_write a.status (is_probe_target machine row.register_number) a.approved
      a.password_attempt a.configured

module _ {S : Type 0} (target : OffsetWriteTarget S) where
  abbrev pub live_value : Request → S → Decimal
  live_value row memory = target.read_offset memory row.register_number row.register_type

  abbrev pub written : Request → S → S × Bool
  written row memory =
      target.write_offset memory row.register_number row.register_type row.intended_value_mm

  module _ (a : Attempt) (request_id now : ℕ) (db : Session S) where
    -- A request that waits for its execution.
    pub record Pending (row : Request) : Type 0 where
      pub found : lookup request_id db.requests ≡ some row
      pub waiting : is_some row.executed_at ≡ false

    -- A pending request that passes the gate.
    pub record Permitted (row : Request) : Type 0 where
      pub pending : Pending row
      pub machine : Machine
      pub located : lookup row.machine_id db.machines ≡ some machine
      pub permitted : permits (authorization a machine row) ≡ true

    -- A permitted request whose register is as it was, and whose change is plausible.
    pub record Cleared (row : Request) : Type 0 where
      pub allowed : Permitted row
      pub steady : has_drifted row.current_value_mm (live_value row db.device) ≡ false
      pub bounded : within_bounds row.intended_value_mm ≡ true
      pub expected :
          (is_large_diff (live_value row db.device) row.intended_value_mm
            && not a.large_diff_acknowledged)
          ≡ false

    -- The session after the write of `row`.
    abbrev after_write : Request → Session S
    after_write row = record db { device = (written row db.device).0 }

    abbrev pub read_back : Request → Decimal
    read_back row = live_value row (written row db.device).0

    -- The session after a verified write.
    abbrev applied_to : Request → Session S
    applied_to row = audit_row row a.executing_user true none (some (read_back row)) (record db {
      requests = insert request_id (executed row a.executing_user now (read_back row)) db.requests;
      device = (written row db.device).0;
    })

    pub data Run : Result Detail Request × Session S → Type 0 where
      missing : lookup request_id db.requests ≡ none → Run (err (not_found request_missing), db)
      finished :
          (row : Request)
          → lookup request_id db.requests ≡ some row
          → is_some row.executed_at ≡ true
          → Run (err (conflict already_executed), db)
      homeless :
          (row : Request)
          → Pending row
          → lookup row.machine_id db.machines ≡ none
          → Run (err (not_found machine_missing), db)
      crashed :
          (row : Request) (machine : Machine)
          → Pending row
          → lookup row.machine_id db.machines ≡ some machine
          → authorization a machine row ≡ none
          → Run (err (unhandled type_error), db)
      stopped :
          (row : Request) (machine : Machine) (auth : WriteAuthorization)
          → Pending row
          → lookup row.machine_id db.machines ≡ some machine
          → authorization a machine row ≡ some auth
          → auth.permitted ≡ false
          → Run (
            err (forbidden (refused auth.reason)),
            audit_row row a.executing_user false (some (ErrorText.blocked auth.reason)) none db,
          )
      drifted :
          (row : Request)
          → Permitted row
          → has_drifted row.current_value_mm (live_value row db.device) ≡ true
          → Run (
              fail request_id a.executing_user now row
                (ErrorText.drift (live_value row db.device) row.current_value_mm)
                (some (live_value row db.device))
                register_changed
                db)
      unbounded :
          (row : Request)
          → Permitted row
          → within_bounds row.intended_value_mm ≡ false
          → Run (err (unprocessable out_of_bounds), db)
      unacknowledged :
          (row : Request)
          → Permitted row
          → (is_large_diff (live_value row db.device) row.intended_value_mm
              && not a.large_diff_acknowledged)
            ≡ true
          → Run (err (unprocessable ack_required), db)
      raised :
          (row : Request)
          → Cleared row
          → (written row db.device).1 ≡ true
          → Run (
              fail request_id a.executing_user now row ErrorText.rejected none write_rejected
                (after_write row))
      unverified :
          (row : Request)
          → Cleared row
          → (written row db.device).1 ≡ false
          → dec_eq (read_back row) row.intended_value_mm ≡ false
          → Run (
              fail request_id a.executing_user now row
                (ErrorText.mismatch row.intended_value_mm (read_back row))
                (some (read_back row))
                not_verified
                (after_write row))
      applied :
          (row : Request)
          → Cleared row
          → (written row db.device).1 ≡ false
          → dec_eq (read_back row) row.intended_value_mm ≡ true
          → Run (ok (executed row a.executing_user now (read_back row)), applied_to row)

    get_row_inserted :
        (s : Session S) (row : Request) (d : Dict ℕ Request)
        → s.requests ≡ insert request_id row d
        → get_row request_id s ≡ ok row
    unfolding get_row
    get_row_inserted s row d e = rw (e, lookup-insert_self request_id row d, get_row)

    verify_write-Run :
        (row : Request)
        → Cleared row
        → (written row db.device).1 ≡ false
        → Run (verify_write target a request_id now row (after_write row))
    unfolding verify_write
    verify_write-Run row h r =
        if_elim Run (not (dec_eq (read_back row) row.intended_value_mm))
          (λ e. Run.unverified row h r (ground arith))
          (λ e.
            subst (λ q. Run (q, applied_to row))
              (sym (
                get_row_inserted (applied_to row)
                  (executed row a.executing_user now (read_back row)) db.requests
                  (unfold audit_row in refl)))
              (Run.applied row h r (ground arith)))

    perform_write-Run :
        (row : Request) → Cleared row → Run (perform_write target a request_id now row db)
    unfolding perform_write
    perform_write-Run row h =
        if_elim Run (written row db.device).1 (λ e. Run.raised row h e)
          (λ e. verify_write-Run row h e)

    check_and_write-Run :
        (row : Request) → Permitted row → Run (check_and_write target a request_id now row db)
    unfolding check_and_write
    check_and_write-Run row h =
        if_elim Run (has_drifted row.current_value_mm (live_value row db.device))
          (λ e. Run.drifted row h e)
          (λ e.
            if_elim Run (not (within_bounds row.intended_value_mm))
              (λ f. Run.unbounded row h (ground arith))
              (λ f.
                if_elim Run
                  (is_large_diff (live_value row db.device) row.intended_value_mm
                    && not a.large_diff_acknowledged)
                  (λ g. Run.unacknowledged row h g)
                  (λ g.
                    perform_write-Run row
                      (record { allowed = h; steady = e; bounded = ground arith; expected = g }))))

    gated-Run :
        (row : Request) (machine : Machine) (auth : Option WriteAuthorization)
        → Pending row
        → lookup row.machine_id db.machines ≡ some machine
        → authorization a machine row ≡ auth
        → Run (gated target a request_id now row auth db)
    unfolding gated
    gated-Run row machine none h l q = Run.crashed row machine h l q
    gated-Run row machine (some auth) h l q =
        if_elim Run (not auth.permitted) (λ e. Run.stopped row machine auth h l q (ground arith))
          (λ e. check_and_write-Run row (record {
            pending = h;
            machine = machine;
            located = l;
            permitted = ap permits q ∙ not-false auth.permitted e;
          }))

    gate_and_execute-Run :
        (row : Request) (machine : Machine)
        → Pending row
        → lookup row.machine_id db.machines ≡ some machine
        → Run (gate_and_execute target a request_id now row machine db)
    unfolding gate_and_execute
    gate_and_execute-Run row machine h l =
        gated-Run row machine (authorization a machine row) h l refl

    with_machine-Run :
        (row : Request) (m : Option Machine)
        → Pending row
        → lookup row.machine_id db.machines ≡ m
        → Run (with_machine target a request_id now row m db)
    unfolding with_machine
    with_machine-Run row none h l = Run.homeless row h l
    with_machine-Run row (some machine) h l = gate_and_execute-Run row machine h l

    with_row-Run :
        (r : Option Request)
        → lookup request_id db.requests ≡ r
        → Run (with_row target a request_id now r db)
    unfolding with_row
    with_row-Run none l = Run.missing l
    with_row-Run (some row) l =
        if_elim Run (is_some row.executed_at) (λ e. Run.finished row l e)
          (λ e.
            with_machine-Run row (lookup row.machine_id db.machines)
              (record { found = l; waiting = e }) refl)

    -- An execution always goes in one of these ways.
    pub execute_request-Run : Run (execute_request target a request_id now db)
    unfolding execute_request
    execute_request-Run = with_row-Run (lookup request_id db.requests) refl
