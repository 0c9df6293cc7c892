-- ===== src/OffsetWrite/Outcome.antt =====
-- What an execution of a request leaves behind: the audit rows, the register memory and the result.
use pottracker.Prelude.{
  ℕ, ◌≡◌, ◌≢◌, ◌⊎◌, Option, inl, inr, refl, sym, true, false, none, some, List, [], ◌∷◌, ◌++◌,
  append-nil, length, arith, nat_eq,
}
use pottracker.Prelude.Dict.{lookup, insert}
use pottracker.Decimal.{dec_eq}
use pottracker.OffsetMath.{within_bounds, is_large_diff}
use pottracker.WriteSafety.{is_ascii}
use pottracker.WriteSafety.Gate.{IsManual, authorize_write_iff}
use pottracker.Api.{conflict, forbidden, Result, ok, err, Machine}
use pottracker.OffsetWrite.Defs.{
  Detail, already_executed, Request, AuditEntry, OffsetWriteTarget, Session, Attempt, audit_row,
  fail, executed, execute_request, has_drifted, is_probe_target, is_some,
}
use pottracker.OffsetWrite.Run.{Run, Cleared, live_value, written, execute_request-Run}

-- How many audit rows an attempt with this result writes.
abbrev pub rows_logged : Result Detail Request → ℕ
rows_logged (ok row) = 1
rows_logged (err (forbidden d)) = 1
rows_logged (err (conflict already_executed)) = 0
rows_logged (err (conflict d)) = 1
rows_logged (err e) = 0

module _ {S : Type 0} where
  -- The audit log keeps its rows and gains those that the result asks for.
  abbrev pub Logs : Session S → Result Detail Request × Session S → Type 0
  Logs db (r, db') =
      (new : List AuditEntry) × (db'.audit ≡ db.audit ++ new) × (length new ≡ rows_logged r)

module _ {S : Type 0} (target : OffsetWriteTarget S) (a : Attempt) (request_id now : ℕ)
    (db : Session S) where
  Run-Logs : {o : Result Detail Request × Session S} → Run target a request_id now db o → Logs db o
  unfolding audit_row fail
  Run-Logs (Run.missing h) = ([], sym (append-nil _), refl)
  Run-Logs (Run.finished row h e) = ([], sym (append-nil _), refl)
  Run-Logs (Run.homeless row h e) = ([], sym (append-nil _), refl)
  Run-Logs (Run.stopped row machine auth h l q e) = (_ ∷ [], refl, refl)
  Run-Logs (Run.crashed row machine h l q) = ([], sym (append-nil _), refl)
  Run-Logs (Run.drifted row h e) = (_ ∷ [], refl, refl)
  Run-Logs (Run.unbounded row h e) = ([], sym (append-nil _), refl)
  Run-Logs (Run.unacknowledged row h e) = ([], sym (append-nil _), refl)
  Run-Logs (Run.raised row h e) = (_ ∷ [], refl, refl)
  Run-Logs (Run.unverified row h e f) = (_ ∷ [], refl, refl)
  Run-Logs (Run.applied row h e f) = (_ ∷ [], refl, refl)

  -- All that has to hold for a write of `row` to be made.
  pub record WriteAllowed (row : Request) : Type 0 where
    pub found : lookup request_id db.requests ≡ some row
    pub waiting : row.executed_at ≡ none
    pub machine : Machine
    pub located : lookup row.machine_id db.machines ≡ some machine
    pub no_probe : is_probe_target machine row.register_number ≡ false
    pub idle : a.status.running ≡ false
    pub manual : IsManual a.status.mode
    pub approved : a.approved ≡ true
    pub gate_set : a.configured ≢ ""
    pub password : a.password_attempt ≡ a.configured
    pub ascii : is_ascii a.configured ≡ true
    pub steady : has_drifted row.current_value_mm (live_value target row db.device) ≡ false
    pub bounded : within_bounds row.intended_value_mm ≡ true
    pub expected :
        (is_large_diff (live_value target row db.device) row.intended_value_mm ≡ false)
        ⊎ (a.large_diff_acknowledged ≡ true)

  not-is_some {ℓ} : {A : Type ℓ} (o : Option A) → is_some o ≡ false → o ≡ none
  not-is_some none h = refl
  not-is_some (some x) h = cc

  Cleared-WriteAllowed : (row : Request) → Cleared target a request_id now db row → WriteAllowed row
  Cleared-WriteAllowed row h =
      let walls =
        (authorize_write_iff a.status (is_probe_target h.allowed.machine row.register_number)
            a.approved a.password_attempt a.configured).0
          h.allowed.permitted in
      record {
        found = h.allowed.pending.found;
        waiting = not-is_some row.executed_at h.allowed.pending.waiting;
        machine = h.allowed.machine;
        located = h.allowed.located;
        no_probe = walls.0;
        idle = walls.1;
        manual = walls.2;
        approved = walls.3;
        gate_set = walls.4;
        password = walls.5;
        ascii = walls.6;
        steady = h.steady;
        bounded = h.bounded;
        expected = ground (arith, h.expected);
      }

  -- The register memory is as it was, or the write of a request was made that every check let pass.
  abbrev pub Touches : Result Detail Request × Session S → Type 0
  Touches (r, db') =
      (db'.device ≡ db.device)
      ⊎ ((row : Request) × WriteAllowed row × (db'.device ≡ (written target row db.device).0))

  Run-Touches :
      {o : Result Detail Request × Session S} → Run target a request_id now db o → Touches o
  unfolding audit_row fail
  Run-Touches (Run.missing h) = inl refl
  Run-Touches (Run.finished row h e) = inl refl
  Run-Touches (Run.homeless row h e) = inl refl
  Run-Touches (Run.stopped row machine auth h l q e) = inl refl
  Run-Touches (Run.crashed row machine h l q) = inl refl
  Run-Touches (Run.drifted row h e) = inl refl
  Run-Touches (Run.unbounded row h e) = inl refl
  Run-Touches (Run.unacknowledged row h e) = inl refl
  Run-Touches (Run.raised row h e) = inr (row, Cleared-WriteAllowed row h, refl)
  Run-Touches (Run.unverified row h e f) = inr (row, Cleared-WriteAllowed row h, refl)
  Run-Touches (Run.applied row h e f) = inr (row, Cleared-WriteAllowed row h, refl)

  -- A result that is no error.
  abbrev pub Succeeds : Result Detail Request × Session S → Type 0
  Succeeds (ok r, db') =
      (row : Request) × WriteAllowed row
      × ((written target row db.device).1 ≡ false)
      × (db'.device ≡ (written target row db.device).0)
      × (dec_eq (target.read_offset db'.device row.register_number row.register_type)
            row.intended_value_mm
          ≡ true)
      × (r
          ≡ executed row a.executing_user now
              (target.read_offset db'.device row.register_number row.register_type))
      × (db'.requests ≡ insert request_id r db.requests)
  Succeeds (err e, db') = Unit {0}

  Run-Succeeds :
      {o : Result Detail Request × Session S} → Run target a request_id now db o → Succeeds o
  unfolding audit_row fail
  Run-Succeeds (Run.applied row h e f) = (row, Cleared-WriteAllowed row h, e, refl, f, refl, refl)
  Run-Succeeds (Run.missing h) = tt
  Run-Succeeds (Run.finished row h e) = tt
  Run-Succeeds (Run.homeless row h e) = tt
  Run-Succeeds (Run.stopped row machine auth h l q e) = tt
  Run-Succeeds (Run.crashed row machine h l q) = tt
  Run-Succeeds (Run.drifted row h e) = tt
  Run-Succeeds (Run.unbounded row h e) = tt
  Run-Succeeds (Run.unacknowledged row h e) = tt
  Run-Succeeds (Run.raised row h e) = tt
  Run-Succeeds (Run.unverified row h e f) = tt

  -- An execution keeps every audit row and adds exactly one if it succeeds, is refused by the gate, or
  -- ends in a conflict other than a second execution; it adds none otherwise.
  pub execute_request-Logs : Logs db (execute_request target a request_id now db)
  execute_request-Logs = Run-Logs (execute_request-Run target a request_id now db)

  -- An execution leaves the register memory alone, unless the request is pending on a known machine,
  -- its register is not the probe's, the machine is idle in a manual mode, the write was approved with
  -- the configured password, the register holds the value that was captured, the new value is in
  -- bounds, and its change is small or acknowledged; then it makes that one write.
  pub execute_request-Touches : Touches (execute_request target a request_id now db)
  execute_request-Touches = Run-Touches (execute_request-Run target a request_id now db)

  -- A success means that every check passed, the write did not raise, the register reads back the
  -- intended value, and the request is stored as executed with that value.
  pub execute_request-Succeeds : Succeeds (execute_request target a request_id now db)
  execute_request-Succeeds = Run-Succeeds (execute_request-Run target a request_id now db)
