-- ===== src/Poller.antt =====
-- shared/focas/poller.py: the poller of one machine as a machine of events. The event loop has one thread,
-- so its tasks interleave only at the awaits: while a cycle awaits its connect and its read, and between
-- two cycles, the consumer may take snapshots and anyone may stop. Snapshots are only moved, so they are
-- any type.
use pottracker.Prelude.{
  ℕ, zero, suc, ◌+◌, ◌≤◌, ◌≡◌, Bool, true, false, ◌||◌, not, Option, none, some, List, [], ◌∷◌,
  ◌++◌, if◌then◌else◌, length, leb, ltb, eqb,
}
pub mod Breaker
pub mod Fresh
pub mod Lossless
pub mod Polled

pub data PollerState : Type 0 where
  init healthy degraded circuit_open shutdown : PollerState

-- Times in milliseconds.
pub record Settings : Type 0 where
  pub machine_id_given : Bool
  pub interval : ℕ
  pub threshold : ℕ
  pub cooldown : ℕ
  pub queue_size : ℕ

pub data SettingsError : Type 0 where
  no_machine_id interval_below_floor threshold_below_one queue_below_one : SettingsError

-- What a read gives.
pub data Reading {ℓ} (S : Type ℓ) : Type ℓ where
  snap : S → Reading S
  handle_error other_error : Reading S

-- What a cycle meets: the clock before and after it, whether the factory connects, if it is asked, and
-- what the read gives.
pub record Weather {ℓ} (S : Type ℓ) : Type ℓ where
  pub polled_at : ℕ
  pub connects : Bool
  pub reading : Reading S
  pub done_at : ℕ

pub record Poller {ℓ} (S : Type ℓ) : Type ℓ where
  pub source : Bool
  pub state : PollerState
  pub stop : Bool
  pub last_poll_at : Option ℕ
  pub last_success_at : Option ℕ
  pub consecutive_failures : ℕ
  pub cycles_completed : ℕ
  pub cycles_failed : ℕ
  pub queue : List S

module _ {ℓ} {S : Type ℓ} where
  abbrev pub created : Poller S
  created = record {
    source = false;
    state = init;
    stop = false;
    last_poll_at = none;
    last_success_at = none;
    consecutive_failures = 0;
    cycles_completed = 0;
    cycles_failed = 0;
    queue = [];
  }

  -- `_disconnect`: what `close` raises is dropped.
  abbrev pub disconnect : Poller S → Poller S
  disconnect s = if s.source then record s { source = false } else s

  -- `get_nowait` of a full queue: its oldest.
  abbrev pub get_nowait : List S → List S
  get_nowait [] = []
  get_nowait (x ∷ xs) = xs

  module _ (cfg : Settings) where
    -- `put_nowait`: a full queue raises, and the snapshot is dropped.
    abbrev pub put_nowait : S → List S → List S
    put_nowait x xs = if leb cfg.queue_size (length xs) then xs else xs ++ (x ∷ [])

    unfoldable pub offer : S → List S → List S
    offer x xs = put_nowait x (if leb cfg.queue_size (length xs) then get_nowait xs else xs)

    unfoldable pub on_success : S → ℕ → Poller S → Poller S
    unfolding offer
    on_success x now s = record s {
      cycles_completed = suc s.cycles_completed;
      last_success_at = some now;
      consecutive_failures = 0;
      state = healthy;
      queue = offer x s.queue;
    }

    unfoldable pub on_failure : Bool → Poller S → Poller S
    on_failure reconnect s =
        let counted = record s {
          cycles_failed = suc s.cycles_failed;
          consecutive_failures = suc s.consecutive_failures;
        } in
        let closed = if reconnect then disconnect counted else counted in
        record closed {
          state = if leb cfg.threshold (suc s.consecutive_failures) then circuit_open else degraded;
        }

    unfoldable pub connect : Bool → Poller S → Poller S
    unfolding on_failure
    connect true s = record s { source = true }
    connect false s = on_failure false (record s { source = false })

    -- What `_poll_once` does with the answer of the source.
    unfoldable pub read_snapshot : Reading S → ℕ → Poller S → Poller S
    unfolding on_success on_failure
    read_snapshot (snap x) now s = on_success x now s
    read_snapshot handle_error now s = on_failure true s
    read_snapshot other_error now s = on_failure false s

    -- Without a source the assertion of `_read_via_source` raises.
    unfoldable pub answer : Weather S → Poller S → Poller S
    unfolding read_snapshot on_failure
    answer w s = if s.source then read_snapshot w.reading w.done_at s else on_failure false s

    -- `_poll_once` with `_read_via_source`.
    unfoldable pub poll_once : Weather S → Poller S → Poller S
    unfolding answer connect
    poll_once w s =
        let polled = record s { last_poll_at = some w.polled_at } in
        answer w (if s.source then polled else connect w.connects polled)

  -- The `finally` of `run`.
  abbrev pub finish : Poller S → Poller S
  finish s = record (disconnect s) { stop = true; state = shutdown }

-- `__init__`: the settings it refuses.
pub validate : Settings → Option SettingsError
validate cfg =
    if not cfg.machine_id_given
    then some no_machine_id
    else if ltb cfg.interval 1
    then some interval_below_floor
    else if ltb cfg.threshold 1
    then some threshold_below_one
    else if ltb cfg.queue_size 1
    then some queue_below_one
    else none

-- How long `run` sleeps after a cycle.
unfoldable pub sleep_for : Settings → PollerState → ℕ
sleep_for cfg circuit_open = cfg.cooldown
sleep_for cfg _ = cfg.interval

-- What another task does while a cycle awaits. What these touch (the queue, the stop) the cycle does not
-- until its answer is there, so they are made before it.
pub data Meanwhile : Type 0 where
  taking stopping : Meanwhile

-- What happens, in order: `run` connects before its first cycle, then polls until the stop. Between two
-- cycles, and within one, the consumer of `snapshots` may take a snapshot, and anyone may call `stop`. The
-- drain of the consumer after a stop is a take for each snapshot in the queue.
pub data Event {ℓ} (S : Type ℓ) : Type ℓ where
  cycle : List Meanwhile → Weather S → Event S
  take stop : Event S

-- The poller with what its consumer was given, the snapshots that were read (both in order) and the
-- sleep after each cycle, the last one first, which a stop cuts short.
pub record World {ℓ} (S : Type ℓ) : Type ℓ where
  pub poller : Poller S
  pub delivered : List S
  pub snapped : List S
  pub sleeps : List ℕ

module _ {ℓ} {S : Type ℓ} where
  abbrev pub snaps : Reading S → List S
  snaps (snap x) = x ∷ []
  snaps handle_error = []
  snaps other_error = []

  abbrev pub snapped_in : Weather S → Bool → List S
  snapped_in w connected = if connected then snaps w.reading else []

  abbrev pub taken : World S → List S → World S
  taken world [] = world
  taken world (x ∷ xs) = record world {
    poller = record world.poller { queue = xs };
    delivered = world.delivered ++ (x ∷ []);
  }

  -- The getter of `snapshots`, when a snapshot is there.
  abbrev pub take_one : World S → World S
  take_one world = taken world world.poller.queue

  abbrev pub stopped : World S → World S
  stopped world = record world { poller = record world.poller { stop = true } }

  unfoldable pub meanwhile : List Meanwhile → World S → World S
  meanwhile [] world = world
  meanwhile (taking ∷ es) world = meanwhile es (take_one world)
  meanwhile (stopping ∷ es) world = meanwhile es (stopped world)

  module _ (cfg : Settings) where
    unfoldable pub cycled : Weather S → World S → World S
    unfolding poll_once sleep_for
    cycled w world =
        let polled = poll_once cfg w world.poller in
        record world {
          poller = polled;
          snapped = world.snapped ++ snapped_in w (world.poller.source || w.connects);
          sleeps =
              if world.poller.stop then world.sleeps else sleep_for cfg polled.state ∷ world.sleeps;
        }

    -- The body of the loop in `run`; a loop that was stopped polls no more.
    unfoldable pub step : Event S → World S → World S
    unfolding cycled meanwhile
    step (cycle during w) world =
        if world.poller.stop then world else cycled w (meanwhile during world)
    step take world = take_one world
    step stop world = stopped world

    unfoldable pub steps : List (Event S) → World S → World S
    unfolding step
    steps [] world = world
    steps (e ∷ es) world = steps es (step e world)

    abbrev pub opened : Bool → World S
    opened connects = record {
      poller = connect cfg connects created;
      delivered = [];
      snapped = [];
      sleeps = [];
    }

    -- A whole `run`, from its first connect to its end.
    unfoldable pub run : Bool → List (Event S) → World S
    unfolding steps
    run connects es =
        let world = steps es (opened connects) in record world { poller = finish world.poller }
