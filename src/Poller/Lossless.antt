-- ===== src/Poller/Lossless.antt =====
-- A consumer of the poller that keeps up.

use pottracker.Prelude.{
  ◌≤◌, ◌<◌, ◌≡◌, refl, sym, ◌∙◌, ap, subst, Bool, true, false, ◌||◌, List, [], ◌∷◌, ◌++◌,
  append_assoc, append-nil, arith, length, if_elim,
}
use pottracker.Poller.{
  Settings, Reading, snap, handle_error, other_error, Weather, on_failure, connect, poll_once,
  Event, cycle, take, stop, World, Meanwhile, taking, stopping, snaps, snapped_in, taken, take_one,
  stopped, meanwhile, cycled, step, steps, opened,
}
use pottracker.Poller.Polled.{poll_once-Polled}

module _ {S : Type 0} (cfg : Settings) where
  module _ (positive : 0 < cfg.queue_size) where
    -- The queue has room when the answer of a cycle is there: the consumer keeps up.
    unfoldable pub KeepsUp : List (Event S) → World S → Type 0
    KeepsUp [] world = Unit
    KeepsUp (cycle during w ∷ es) world =
        (length (meanwhile during world).poller.queue < cfg.queue_size)
        × KeepsUp es (step cfg (cycle during w) world)
    KeepsUp (take ∷ es) world = KeepsUp es (step cfg take world)
    KeepsUp (stop ∷ es) world = KeepsUp es (step cfg stop world)

    abbrev IsWhole : World S → Type 0
    IsWhole world = world.delivered ++ world.poller.queue ≡ world.snapped

    snaps_le : (r : Reading S) → length (snaps r) ≤ 1
    snaps_le (snap x) = omega arith
    snaps_le handle_error = omega arith
    snaps_le other_error = omega arith

    one_at_most : (w : Weather S) (b : Bool) → length (snapped_in w b) ≤ 1
    one_at_most w true = snaps_le w.reading
    one_at_most w false = omega arith

    cycle-IsWhole :
        (w : Weather S) (world : World S)
        → length world.poller.queue < cfg.queue_size
        → IsWhole world
        → IsWhole (cycled cfg w world)
    unfolding cycled
    cycle-IsWhole w world roomy h =
        let news = snapped_in w (world.poller.source || w.connects) in
        let once = poll_once-Polled cfg positive w world.poller (omega arith) in
        let fits =
          once.queued.whole
            (omega (arith, roomy, one_at_most w (world.poller.source || w.connects))) in
        ap (λ q. world.delivered ++ q)
          (subst (λ d. d ++ (poll_once cfg w world.poller).queue ≡ world.poller.queue ++ news) fits
            once.queued.same)
        ∙ sym (append_assoc world.delivered world.poller.queue news)
        ∙ ap (λ q. q ++ news) h

    taken-IsWhole :
        (world : World S) (q : List S)
        → q ≡ world.poller.queue
        → IsWhole world
        → IsWhole (taken world q)
    taken-IsWhole world [] e h = h
    taken-IsWhole world (x ∷ xs) e h =
        append_assoc world.delivered (x ∷ []) xs ∙ ap (λ q. world.delivered ++ q) e ∙ h

    meanwhile-IsWhole :
        (es : List Meanwhile) (world : World S) → IsWhole world → IsWhole (meanwhile es world)
    unfolding meanwhile
    meanwhile-IsWhole [] world h = h
    meanwhile-IsWhole (taking ∷ es) world h =
        meanwhile-IsWhole es (take_one world) (taken-IsWhole world world.poller.queue refl h)
    meanwhile-IsWhole (stopping ∷ es) world h = meanwhile-IsWhole es (stopped world) h

    step-IsWhole :
        (e : Event S) (es : List (Event S)) (world : World S)
        → KeepsUp (e ∷ es) world
        → IsWhole world
        → IsWhole (step cfg e world) × KeepsUp es (step cfg e world)
    unfolding KeepsUp step
    step-IsWhole (cycle during w) es world k h = (
      if_elim IsWhole world.poller.stop (λ _. h)
          (λ _. cycle-IsWhole w (meanwhile during world) k.0 (meanwhile-IsWhole during world h)),
      k.1,
    )
    step-IsWhole take es world k h = (taken-IsWhole world world.poller.queue refl h, k)
    step-IsWhole stop es world k h = (h, k)

    steps-IsWhole :
        (es : List (Event S)) (world : World S)
        → KeepsUp es world
        → IsWhole world
        → IsWhole (steps cfg es world)
    unfolding steps
    steps-IsWhole [] world k h = h
    steps-IsWhole (e ∷ es) world k h =
        let next = step-IsWhole e es world k h in steps-IsWhole es (step cfg e world) next.1 next.0

    opened-IsWhole : (connects : Bool) → IsWhole (opened cfg connects)
    unfolding connect on_failure
    opened-IsWhole true = refl
    opened-IsWhole false = refl

    -- Where the queue has room when the answer of each cycle is there, no snapshot is lost, doubled or put out
    -- of order, whatever takes and stops come between or within the cycles: those that the consumer was given
    -- and then those in the queue are exactly the snapshots that were read, in their order. A consumer that
    -- has emptied the queue was given them all.
    pub steps-KeepsUp :
        (connects : Bool) (es : List (Event S))
        → KeepsUp es (opened cfg connects)
        → let world = steps cfg es (opened cfg connects) in
          (world.delivered ++ world.poller.queue ≡ world.snapped)
          × (world.poller.queue ≡ [] → world.delivered ≡ world.snapped)
    steps-KeepsUp connects es k =
        let world = steps cfg es (opened cfg connects) in
        let whole = steps-IsWhole es (opened cfg connects) k (opened-IsWhole connects) in
        (
          whole,
          λ empty.
              sym (append-nil world.delivered) ∙ ap (λ q. world.delivered ++ q) (sym empty) ∙ whole,
        )
