-- ===== src/Tests/Supervisor.antt =====
-- Runs of service.py.
use pottracker.Prelude.{◌+◌, ◌-◌, ◌≡◌, refl, true, false, [], ◌∷◌, arith}
use pottracker.Service.{
  circuit_open, ServiceConfig, handle_error, focas_error, other_error, Weather, Service, initial,
  run, healthy,
}
use pottracker.Service.Breaker.{IsWell, run-IsWell, run-opens}

abbrev config : ServiceConfig
config = record {
  interval_seconds = 60;
  breaker_threshold = 3;
  cooldown_seconds = 30;
  connect_backoff_seconds = 5;
  connect_backoff_max_seconds = 60;
}

abbrev stale : Weather
stale = record { connects = true; reading = handle_error; elapsed = 2 }

abbrev failing : Weather
failing = record { connects = true; reading = focas_error; elapsed = 2 }

abbrev broken : Weather
broken = record { connects = true; reading = other_error; elapsed = 2 }

abbrev connected : Service
connected = record initial { source = true; state = healthy }

initial-IsWell : IsWell config initial
initial-IsWell = record {
  below = omega arith;
  live = λ e. ground arith;
  cooled = λ e. ground arith;
  counted = refl;
  over = λ e. ground arith;
}

run-IsWell_example :
    IsWell config (run config (failing ∷ stale ∷ failing ∷ broken ∷ stale ∷ []) initial)
run-IsWell_example =
    run-IsWell config (omega arith) (failing ∷ stale ∷ failing ∷ broken ∷ stale ∷ []) initial
      initial-IsWell

run-opens_example :
    let before = run config (failing ∷ failing ∷ []) connected in
    let after = run config (failing ∷ failing ∷ failing ∷ []) connected in
    (before.source ≡ true)
    × (before.consecutive ≡ 0 + 2)
    × (after.state ≡ circuit_open)
    × (after.source ≡ false)
    × (after.consecutive ≡ 0)
    × (after.waits ≡ (60 - (2 + 30)) ∷ 30 ∷ before.waits)
run-opens_example =
    run-opens config (failing ∷ failing ∷ []) failing connected (refl, (refl, tt)) refl refl refl
      refl
