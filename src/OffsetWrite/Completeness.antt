-- ===== src/OffsetWrite/Completeness.antt =====
-- offset_write.py: when an execution succeeds.
use mathlib.Core.Option.{some-injective}
use pottracker.Prelude.{
  ℕ, ◌≤◌, ◌≡◌, refl, sym, ◌∙◌, subst, some, Bool, true, false, arith, nat_eq, ap, not, ◌&&◌,
}
use pottracker.Prelude.Dict.{lookup}
use pottracker.Decimal.{dec_eq}
use pottracker.Model.{register_key_eq}
use pottracker.OffsetMath.{within_bounds, is_large_diff}
use pottracker.WriteSafety.Gate.{authorize_write_iff, permits}
use pottracker.Api.{Result, ok, Machine}
use pottracker.OffsetWrite.Defs.{
  Detail, Request, OffsetWriteTarget, Session, Attempt, is_probe_target, has_drifted,
  execute_request, is_some,
}
use pottracker.OffsetWrite.Run.{
  Run, live_value, Pending, authorization, written, read_back, execute_request-Run,
}
use pottracker.OffsetWrite.Outcome.{WriteAllowed}
use pottracker.OffsetWrite.Mock.{MockOffsetWriter, mock, write_offset_taken, write_offset_kept}

module _ {S : Type 0} (target : OffsetWriteTarget S) (a : Attempt) (request_id now : ℕ)
    (db : Session S) (row : Request) where
  -- The result is a success.
  abbrev pub IsDone : Result Detail Request × Session S → Type 0
  IsDone (r, db') = (x : Request) × (r ≡ ok x)

  module _ (allowed : WriteAllowed target a request_id now db row)
      (taken : (written target row db.device).1 ≡ false)
      (kept : dec_eq (read_back target a request_id now db row) row.intended_value_mm ≡ true) where
    same_row : {r : Request} → lookup request_id db.requests ≡ some r → row ≡ r
    same_row {r} found = some-injective row r (sym allowed.found ∙ found)

    same_machine :
        {r : Request} {m : Machine}
        → row ≡ r
        → lookup r.machine_id db.machines ≡ some m
        → allowed.machine ≡ m
    same_machine {r} {m} e l =
        some-injective allowed.machine m
          (sym allowed.located ∙ subst (λ q. lookup q.machine_id db.machines ≡ some m) (sym e) l)

    passes : permits (authorization a allowed.machine row) ≡ true
    passes =
        (authorize_write_iff a.status (is_probe_target allowed.machine row.register_number)
            a.approved a.password_attempt a.configured).1
          (
            allowed.no_probe, allowed.idle, allowed.manual, allowed.approved, allowed.gate_set,
            allowed.password, allowed.ascii,
          )

    -- A test of the row cannot answer both ways.
    clash : (f : Request → Bool) {r : Request} → row ≡ r → f row ≡ false → f r ≡ true → ⊥
    clash f e p q = cc (ap f e, p, q)

    same_pending : {r : Request} → Pending target a request_id now db r → row ≡ r
    same_pending h = same_row h.found

    refused :
        (r : Request) (machine : Machine)
        → Pending target a request_id now db r
        → lookup r.machine_id db.machines ≡ some machine
        → permits (authorization a machine r) ≡ false
        → ⊥
    refused r machine h l e =
        clash (λ q. not (permits (authorization a machine q))) (same_pending h)
          (subst (λ m. not (permits (authorization a m row)) ≡ false)
            (same_machine (same_pending h) l) (ground (arith, passes)))
          (ground (arith, e))

    Run-IsDone :
        {o : Result Detail Request × Session S} → Run target a request_id now db o → IsDone o
    Run-IsDone (Run.missing h) = cc (h, allowed.found)
    Run-IsDone (Run.finished r h e) =
        absurd (clash (λ q. is_some q.executed_at) (same_row h) (ground (arith, allowed.waiting)) e)
    Run-IsDone (Run.homeless r h e) =
        cc (ap (λ q. lookup q.machine_id db.machines) (same_pending h), allowed.located, e)
    Run-IsDone (Run.crashed r machine h l q) = absurd (refused r machine h l (ap permits q))
    Run-IsDone (Run.stopped r machine auth h l q e) =
        absurd (refused r machine h l (ap permits q ∙ e))
    Run-IsDone (Run.drifted r h e) = absurd (
        clash (λ q. has_drifted q.current_value_mm (live_value target q db.device))
          (same_pending h.pending) allowed.steady e)
    Run-IsDone (Run.unbounded r h e) = absurd (
        clash (λ q. not (within_bounds q.intended_value_mm)) (same_pending h.pending)
          (ground (arith, allowed.bounded)) (ground (arith, e)))
    Run-IsDone (Run.unacknowledged r h e) = absurd (
        clash
          (λ q.
            is_large_diff (live_value target q db.device) q.intended_value_mm
            && not a.large_diff_acknowledged)
          (same_pending h.pending) (ground (arith, allowed.expected)) e)
    Run-IsDone (Run.raised r h e) =
        absurd
          (clash (λ q. (written target q db.device).1) (same_pending h.allowed.pending) taken e)
    Run-IsDone (Run.unverified r h e f) = absurd (
        clash (λ q. not (dec_eq (read_back target a request_id now db q) q.intended_value_mm))
          (same_pending h.allowed.pending) (ground (arith, kept)) (ground (arith, f)))
    Run-IsDone (Run.applied r h e f) = (_, refl)

  -- When every check allows the write, the target takes it without raising and reads it back as
  -- intended, the execution succeeds.
  execute_request_completes :
      WriteAllowed target a request_id now db row
      → (written target row db.device).1 ≡ false
      → dec_eq (read_back target a request_id now db row) row.intended_value_mm ≡ true
      → IsDone (execute_request target a request_id now db)
  execute_request_completes allowed taken kept =
      Run-IsDone allowed taken kept (execute_request-Run target a request_id now db)

-- Over the mock with no fault set (no rejection, and a corruption of zero with at most four places, as the
-- default `Decimal("0")` is), every allowed write of a value of four places succeeds.
pub mock_completes :
    (a : Attempt) (request_id now : ℕ) (db : Session MockOffsetWriter) (row : Request)
    → WriteAllowed mock a request_id now db row
    → db.device.reject ≡ false
    → db.device.corrupt_delta_mm.digits ≡ 0
    → db.device.corrupt_delta_mm.places ≤ 4
    → row.intended_value_mm.places ≡ 4
    → IsDone mock a request_id now db row (execute_request mock a request_id now db)
mock_completes a request_id now db row allowed open_ zero_ grid places =
    execute_request_completes mock a request_id now db row allowed
      (write_offset_taken db.device row.register_number row.register_type row.intended_value_mm
        open_)
      (write_offset_kept db.device row.register_number row.register_type row.intended_value_mm open_
        zero_ grid places)
