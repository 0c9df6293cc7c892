-- ===== src/Tests/Write.antt =====
-- Runs of offset_write.py over the mock of mock.py.
use pottracker.Prelude.{
  ℕ, ◌≡◌, ◌≢◌, refl, inl, inr, String, Bool, true, false, none, some, [], ◌∷◌, ◌==◌, nat_eq,
  ℕ_discrete, string_eq, string_dec, ap, subst, arith,
}
use pottracker.Prelude.Dict.{lookup, insert, lookup-insert_inv}
use pottracker.Decimal.{Decimal, dec_eq, quantize, dec_le, dec_lt, dec_neg, dec_abs, dec_sub}
use pottracker.Model.{
  h_geom, mdi, MachineStatus, register_key_eq, RegisterType-discrete, RegisterKey-discrete,
}
use pottracker.OffsetMath.{within_bounds, is_large_diff, diff_mm}
use pottracker.Api.{Machine}
use pottracker.OffsetWrite.Defs.{
  Request, Session, Attempt, execute_request, create_request, is_probe_target,
}
use pottracker.OffsetWrite.Mock.{MockOffsetWriter, mock, zero_mm, read_offset}
use pottracker.OffsetWrite.Outcome.{
  Logs, Touches, Succeeds, WriteAllowed, execute_request-Logs, execute_request-Touches,
  execute_request-Succeeds,
}
use pottracker.WriteSafety.{is_ascii}
use pottracker.OffsetWrite.Staging.{Stages, create_request-Stages}
use pottracker.OffsetWrite.History.{
  IsSound, AllRows, waits, here, next, executes, Reach-IsSound, Reach-finished,
}
use pottracker.OffsetWrite.Batch.{Known}
use pottracker.OffsetWrite.Completeness.{IsDone, mock_completes}

abbrev mm : ℕ → Decimal
mm digits = record { negative = false; digits = digits; places = 4 }

abbrev viper : Machine
viper = record {
  id = 1;
  name = "Viper";
  machine_class = "mill";
  enabled = true;
  has_tsc = true;
  probe_t_number = some 50;
  probe_h_register = some 50;
  offset_register_count = 200;
}

abbrev status : MachineStatus
status = record {
  mode = mdi;
  running = false;
  emergency_stop = false;
  current_t_number = none;
  next_t_number = none;
  active_wcs = none;
  program_number = none;
  program_name = none;
}

abbrev pending : Request
pending = record {
  machine_id = 1;
  register_number = 12;
  register_type = h_geom;
  intended_value_mm = mm 1001000;
  current_value_mm = some (mm 1000000);
  reason = "worn";
  requested_by = 3;
  confirmed_by = none;
  confirmed_at = none;
  executed_at = none;
  verified_value_mm = none;
  success = none;
  error = none;
}

abbrev finished : Request
finished = record pending {
  executed_at = some 5;
  success = some true;
  verified_value_mm = some (mm 1001000);
}

abbrev writer : MockOffsetWriter
writer = record {
  values = ((12, h_geom), mm 1000000) ∷ [];
  reject = false;
  corrupt_delta_mm = zero_mm;
  writes = [];
}

abbrev session : Session MockOffsetWriter
session = record {
  machines = (1, viper) ∷ [];
  requests = (7, pending) ∷ [];
  audit = [];
  device = writer;
}

abbrev done_session : Session MockOffsetWriter
done_session = record session { requests = (7, finished) ∷ [] }

abbrev attempt : Attempt
attempt = record {
  executing_user = 3;
  status = status;
  approved = true;
  password_attempt = "shop";
  configured = "shop";
  large_diff_acknowledged = false;
}

set_password : ◌≢◌ {A = String} "shop" ""
unfolding string_dec
set_password e = let same : Path Bool false true = ap (λ (s : String). s == "") e in ground arith

allowed : WriteAllowed mock attempt 7 100 session pending
unfolding is_ascii lookup ℕ_discrete RegisterKey-discrete is_probe_target read_offset within_bounds
    is_large_diff diff_mm dec_lt dec_le dec_neg dec_abs dec_sub dec_eq quantize
    RegisterType-discrete
allowed = record {
  found = refl;
  waiting = refl;
  machine = viper;
  located = refl;
  no_probe = refl;
  idle = refl;
  manual = inl refl;
  approved = refl;
  gate_set = λ e. set_password e;
  password = refl;
  ascii = refl;
  steady = refl;
  bounded = refl;
  expected = inl refl;
}

execute_request-Logs_example : Logs session (execute_request mock attempt 7 100 session)
execute_request-Logs_example = execute_request-Logs mock attempt 7 100 session

execute_request-Touches_example :
    Touches mock attempt 7 100 session (execute_request mock attempt 7 100 session)
execute_request-Touches_example = execute_request-Touches mock attempt 7 100 session

execute_request-Succeeds_example :
    Succeeds mock attempt 7 100 session (execute_request mock attempt 7 100 session)
execute_request-Succeeds_example = execute_request-Succeeds mock attempt 7 100 session

mock_completes_example :
    IsDone mock attempt 7 100 session pending (execute_request mock attempt 7 100 session)
mock_completes_example =
    mock_completes attempt 7 100 session pending allowed refl refl (omega arith) refl

create_request-Stages_example :
    Stages mock 8 1 12 h_geom
      (mm 1002000)
      "again"
      3
      session
      (create_request mock 8 1 12 h_geom (mm 1002000) "again" 3 session)
create_request-Stages_example =
    create_request-Stages mock 8 1 12 h_geom (mm 1002000) "again" 3 session

-- The session after the staged request was executed.
abbrev later_session : Session MockOffsetWriter
later_session = (execute_request mock attempt 7 100 session).1

session-IsSound : AllRows IsSound session.requests
unfolding lookup insert
session-IsSound k row h = elim (lookup-insert_inv k 7 pending [] h) [
  | inl same ↦ subst IsSound same.1 (record { writable = refl; settled = waits refl refl refl })
  | inr other ↦ ground (arith, other.1)
]

Reach-IsSound_example : AllRows IsSound later_session.requests
Reach-IsSound_example =
    Reach-IsSound mock session later_session session-IsSound
      (next here (executes attempt 7 100 session))

done_found : lookup 7 done_session.requests ≡ some finished
unfolding lookup ℕ_discrete
done_found = refl

Reach-finished_example :
    lookup 7 (execute_request mock attempt 7 200 done_session).1.requests ≡ some finished
Reach-finished_example =
    Reach-finished mock 7 finished done_session (execute_request mock attempt 7 200 done_session).1
      done_found (λ e. ground arith) (next here (executes attempt 7 200 done_session))

request-Known : Known mock attempt session (7, 100)
unfolding lookup ℕ_discrete
request-Known = (pending, refl, λ e. ground arith)

unknown_request : lookup 9 session.requests ≡ none
unfolding lookup ℕ_discrete
unknown_request = refl
