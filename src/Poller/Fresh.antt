-- ===== src/Poller/Fresh.antt =====
-- The bounded queue of the poller: which snapshots its consumer is given, and in which order.
use mathlib.Core.List.Sublist
use mathlib.Core.List.{Sublist, sublist-append_left}
use pottracker.Prelude.{
  ◌≤◌, ◌<◌, ◌≡◌, refl, sym, ◌∙◌, ap, Bool, true, false, ◌||◌, List, [], ◌∷◌, ◌++◌, append_assoc,
  arith, length, length-append, if_elim,
}
use pottracker.Poller.{
  Settings, Weather, on_failure, connect, Event, cycle, take, stop, World, Meanwhile, taking,
  stopping, snapped_in, taken, take_one, stopped, meanwhile, cycled, step, steps, opened,
}
use pottracker.Poller.Polled.{poll_once-Polled}

module _ {S : Type 0} (cfg : Settings) where
  module _ (positive : 0 < cfg.queue_size) where
    -- Of the snapshots that were read the queue holds the last ones, no more than its size; the consumer
    -- was given some of those before, each once and in order.
    pub record IsFresh (world : World S) : Type 0 where
      pub older : List S
      pub last : older ++ world.poller.queue ≡ world.snapped
      pub given : Sublist world.delivered older
      pub bounded : length world.poller.queue ≤ cfg.queue_size
      pub counted : world.poller.cycles_completed ≡ length world.snapped

    cycle-IsFresh : (w : Weather S) (world : World S) → IsFresh world → IsFresh (cycled cfg w world)
    unfolding cycled
    cycle-IsFresh w world h =
        let once = poll_once-Polled cfg positive w world.poller h.bounded in
        record {
          older = h.older ++ once.queued.dropped;
          last =
              append_assoc h.older once.queued.dropped _
              ∙ ap (λ q. h.older ++ q) once.queued.same
              ∙ sym (append_assoc h.older world.poller.queue _)
              ∙ ap (λ q. q ++ snapped_in w (world.poller.source || w.connects)) h.last;
          given = Sublist.trans h.given (sublist-append_left h.older once.queued.dropped);
          bounded = once.queued.bounded;
          counted = omega (
            arith,
            once.counted,
            h.counted,
            length-append world.snapped (snapped_in w (world.poller.source || w.connects)),
          );
        }

    taken-IsFresh :
        (world : World S) (q : List S)
        → q ≡ world.poller.queue
        → IsFresh world
        → IsFresh (taken world q)
    taken-IsFresh world [] e h = h
    taken-IsFresh world (x ∷ xs) e h = record {
      older = h.older ++ (x ∷ []);
      last = append_assoc h.older (x ∷ []) xs ∙ ap (λ q. h.older ++ q) e ∙ h.last;
      given = Sublist.append h.given (Sublist.refl (x ∷ []));
      bounded = omega (arith, ap length e, h.bounded);
      counted = h.counted;
    }

    stopped-IsFresh : (world : World S) → IsFresh world → IsFresh (stopped world)
    stopped-IsFresh world h = record {
      older = h.older;
      last = h.last;
      given = h.given;
      bounded = h.bounded;
      counted = h.counted;
    }

    meanwhile-IsFresh :
        (es : List Meanwhile) (world : World S) → IsFresh world → IsFresh (meanwhile es world)
    unfolding meanwhile
    meanwhile-IsFresh [] world h = h
    meanwhile-IsFresh (taking ∷ es) world h =
        meanwhile-IsFresh es (take_one world) (taken-IsFresh world world.poller.queue refl h)
    meanwhile-IsFresh (stopping ∷ es) world h =
        meanwhile-IsFresh es (stopped world) (stopped-IsFresh world h)

    step-IsFresh : (e : Event S) (world : World S) → IsFresh world → IsFresh (step cfg e world)
    unfolding step
    step-IsFresh (cycle during w) world h =
        if_elim IsFresh world.poller.stop (λ _. h)
          (λ _. cycle-IsFresh w (meanwhile during world) (meanwhile-IsFresh during world h))
    step-IsFresh take world h = taken-IsFresh world world.poller.queue refl h
    step-IsFresh stop world h = stopped-IsFresh world h

    -- With a positive queue size, from a state where this holds and through any cycles, takes and stops, also within a
    -- cycle:
    -- the queue holds the last of the snapshots that were read, at most its size; what the consumer was
    -- given is, in order and without repetition, some of those before; and the completed cycles count
    -- the snapshots that were read.
    pub steps-IsFresh :
        (es : List (Event S)) (world : World S) → IsFresh world → IsFresh (steps cfg es world)
    unfolding steps
    steps-IsFresh [] world h = h
    steps-IsFresh (e ∷ es) world h = steps-IsFresh es (step cfg e world) (step-IsFresh e world h)

    opened-IsFresh : (connects : Bool) → IsFresh (opened cfg connects)
    unfolding connect on_failure
    opened-IsFresh true = record {
      older = [];
      last = refl;
      given = Sublist.refl [];
      bounded = omega arith;
      counted = refl;
    }
    opened-IsFresh false = record {
      older = [];
      last = refl;
      given = Sublist.refl [];
      bounded = omega arith;
      counted = refl;
    }
