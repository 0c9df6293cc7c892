-- ===== src/Service.antt =====
-- shared/focas/service.py: one round of the supervisor's loop, with the connects and reads as inputs.
use pottracker.Prelude.{
  ℕ, suc, ◌+◌, ◌-◌, ◌*◌, min, Bool, true, false, Option, none, some, List, [], ◌∷◌, ◌++◌,
  if◌then◌else◌, leb, ltb,
}
use pottracker.Model.{MachineSnapshot}
pub mod Breaker
pub mod Exclusion
pub mod Lock

pub data ServiceState : Type 0 where
  connecting healthy degraded circuit_open stopped : ServiceState

-- Times are whole seconds. There is no fast status tier.
pub record ServiceConfig : Type 0 where
  pub interval_seconds : ℕ
  pub breaker_threshold : ℕ
  pub cooldown_seconds : ℕ
  pub connect_backoff_seconds : ℕ
  pub connect_backoff_max_seconds : ℕ

-- What a read gives: a snapshot, one of the two errors that are caught, or any other exception.
pub data Reading : Type 0 where
  snap : MachineSnapshot → Reading
  handle_error focas_error other_error : Reading

-- What one round meets: whether the factory connects, if it is asked, what the read gives, and how long
-- the cycle takes before it waits.
pub record Weather : Type 0 where
  pub connects : Bool
  pub reading : Reading
  pub elapsed : ℕ

-- The state, with the snapshots that were handed to `persist`, which may have failed (`_do_persist` catches
-- that, and its answer is logged only), the waits and the states of the heartbeats, the last one first, and
-- whether an exception has ended `run`. The times in a heartbeat are left out.
pub record Service : Type 0 where
  pub source : Bool
  pub state : ServiceState
  pub consecutive : ℕ
  pub connect_failures : ℕ
  pub cycles_ok : ℕ
  pub cycles_failed : ℕ
  pub handed : List MachineSnapshot
  pub waits : List ℕ
  pub heartbeats : List (ServiceState × ℕ)
  pub ended : Bool

abbrev pub initial : Service
initial = record {
  source = false;
  state = connecting;
  consecutive = 0;
  connect_failures = 0;
  cycles_ok = 0;
  cycles_failed = 0;
  handed = [];
  waits = [];
  heartbeats = [];
  ended = false;
}

abbrev emit_heartbeat : Service → Service
emit_heartbeat s = record s { heartbeats = (s.state, s.consecutive) ∷ s.heartbeats }

abbrev pub close_source : Service → Service
close_source s = record s { source = false }

abbrev pub sleep : ℕ → Service → Service
sleep seconds s = record s { waits = seconds ∷ s.waits }

module _ (cfg : ServiceConfig) where
  -- Whether the connection stands, and the state after.
  pub connect : Bool → Service → Bool × Service
  connect true s = (
    true,
    record (emit_heartbeat (record s { state = connecting })) {
      source = true;
      connect_failures = 0;
      consecutive = 0;
      state = healthy;
    },
  )
  connect false s =
      let failures = suc s.connect_failures in
      (
        false,
        sleep (min cfg.connect_backoff_max_seconds (cfg.connect_backoff_seconds * failures))
            (record (emit_heartbeat (record s { state = connecting })) {
              connect_failures = failures;
            }),
      )

  pub on_read_failure : Service → Service
  on_read_failure s =
      let counted = record s { cycles_failed = suc s.cycles_failed } in
      if leb cfg.breaker_threshold counted.consecutive
      then record (sleep cfg.cooldown_seconds
          (close_source (emit_heartbeat (record counted { state = circuit_open })))) {
            consecutive = 0;
          }
      else emit_heartbeat (record counted { state = degraded })

  abbrev pub sleep_remaining : ℕ → Service → Service
  sleep_remaining elapsed s = sleep (cfg.interval_seconds - elapsed) s

  pub run_cycle : Reading → ℕ → Service → Service
  unfolding on_read_failure
  run_cycle (snap snapshot) elapsed s = sleep_remaining elapsed (
      emit_heartbeat (record s {
        consecutive = 0;
        cycles_ok = suc s.cycles_ok;
        handed = snapshot ∷ s.handed;
        state = healthy;
      }))
  run_cycle handle_error elapsed s =
      on_read_failure (close_source (record s { consecutive = suc s.consecutive }))
  run_cycle focas_error elapsed s =
      let failed = on_read_failure (record s { consecutive = suc s.consecutive }) in
      let slept =
        if leb cfg.breaker_threshold (suc s.consecutive) then cfg.cooldown_seconds else 0 in
      if ltb failed.consecutive cfg.breaker_threshold
      then sleep_remaining (elapsed + slept) failed
      else failed
  -- It is not caught: the `finally` of `run` closes the source, and `run` ends.
  run_cycle other_error elapsed s =
      emit_heartbeat (record (close_source s) { state = stopped; ended = true })

  abbrev pub after_connect : Weather → Bool × Service → Service
  after_connect w (false, s) = s
  after_connect w (true, s) = run_cycle w.reading w.elapsed s

  -- The body of the loop in `run`.
  unfoldable pub round : Weather → Service → Service
  unfolding connect run_cycle
  round w s =
      if s.ended
      then s
      else if s.source
      then run_cycle w.reading w.elapsed s
      else after_connect w (connect w.connects s)

  unfoldable pub run : List Weather → Service → Service
  run [] s = s
  run (w ∷ ws) s = run ws (round w s)
