-- ===== src/Tests/Poller.antt =====
-- Runs of the poller.
use mathlib.Core.List.Sublist
use pottracker.Prelude.{◌+◌, ◌*◌, ◌≡◌, refl, true, false, [], ◌∷◌, ◌++◌, ◌≤◌, ◌<◌, arith, ℕ, List}
use pottracker.Poller.{
  Settings, snap, other_error, Weather, created, circuit_open, degraded, Event, cycle, take, stop,
  taking, stopping, meanwhile, cycled, connect, step, steps, opened, run,
}
use pottracker.Poller.Fresh.{IsFresh, steps-IsFresh}
use pottracker.Poller.Lossless.{KeepsUp, steps-KeepsUp}
use pottracker.Poller.Breaker.{Matches, IsTracked, steps-IsTracked, poll_all, poll_all-Refused}

abbrev settings : Settings
settings = record {
  machine_id_given = true;
  interval = 60000;
  threshold = 5;
  cooldown = 60000;
  queue_size = 2;
}

abbrev sees : ℕ → Weather ℕ
sees n = record { polled_at = n; connects = true; reading = snap n; done_at = n + 1 }

abbrev refused : Weather ℕ
refused = record { polled_at = 0; connects = false; reading = other_error; done_at = 0 }

-- Three snapshots before the consumer takes one: the first is lost.
abbrev busy : List (Event ℕ)
busy =
    cycle [] (sees 1) ∷ cycle [] (sees 2) ∷ cycle [] (sees 3) ∷ take ∷ cycle [] (sees 4) ∷ stop ∷ []

abbrev calm : List (Event ℕ)
calm =
    cycle [] (sees 1)
    ∷ cycle (taking ∷ []) (sees 2)
    ∷ cycle [] refused
    ∷ take
    ∷ cycle (stopping ∷ []) (sees 3)
    ∷ []

first_is_lost : (run settings true busy).delivered ≡ 2 ∷ []
unfolding run
first_is_lost = refl

connected-IsFresh : IsFresh {S = ℕ} settings (omega arith) (opened settings true)
unfolding connect
connected-IsFresh = record {
  older = [];
  last = refl;
  given = Sublist.refl [];
  bounded = omega arith;
  counted = refl;
}

steps-IsFresh_example : IsFresh settings (omega arith) (steps settings busy (opened settings true))
steps-IsFresh_example =
    steps-IsFresh settings (omega arith) busy (opened settings true) connected-IsFresh

calm-KeepsUp : KeepsUp settings (omega arith) calm (opened settings true)
unfolding KeepsUp step connect meanwhile cycled
calm-KeepsUp = (omega arith, (omega arith, (omega arith, (omega arith, tt))))

-- The snapshot that is read when the stop comes stays in the queue.
steps-KeepsUp_example :
    let world = steps settings calm (opened settings true) in
    (world.delivered ++ world.poller.queue ≡ world.snapped)
    × (world.poller.queue ≡ [] → world.delivered ≡ world.snapped)
steps-KeepsUp_example = steps-KeepsUp settings (omega arith) true calm calm-KeepsUp

last_stays : (run settings true calm).poller.queue ≡ 3 ∷ []
unfolding run
last_stays = refl

opened-IsTracked : IsTracked settings (opened {S = ℕ} settings true).poller
unfolding connect Matches
opened-IsTracked = refl

steps-IsTracked_example : IsTracked settings (steps settings busy (opened settings true)).poller
steps-IsTracked_example = steps-IsTracked settings busy (opened settings true) opened-IsTracked

poll_all-Refused_example :
    let t = poll_all settings (refused ∷ refused ∷ []) created in
    (t.source ≡ false)
    × (t.cycles_failed ≡ 0 + 2 * 2)
    × (t.consecutive_failures ≡ 0 + 2 * 2)
    × ((5 ≤ t.consecutive_failures) → t.state ≡ circuit_open)
    × ((t.consecutive_failures < 5) → t.state ≡ degraded)
poll_all-Refused_example =
    poll_all-Refused settings refused (refused ∷ []) created (refl, (refl, tt)) refl
