-- ===== src/Poller/Polled.antt =====
-- What one cycle of the poller does to its bounded queue.

use pottracker.Prelude.{
  ℕ, suc, ◌+◌, ◌≤◌, ◌<◌, ◌≡◌, refl, sym, some, ap, subst, Bool, true, false, ◌||◌, List, [], ◌∷◌,
  ◌++◌, append-nil, if◌then◌else◌, leb, leb→le, arith, length, length-append, if_elim, Bool-cases,
  ◌⊎◌, inl, inr,
}
use pottracker.Poller.{
  Settings, Reading, snap, handle_error, other_error, Weather, Poller, circuit_open, degraded,
  offer, on_success, on_failure, connect, read_snapshot, answer, poll_once, snaps, snapped_in,
}

module _ {S : Type 0} (cfg : Settings) where
  -- From `before` and a snapshot list `news`, the queue `after`: what is missing is the oldest.
  pub record Follows (before news after : List S) : Type 0 where
    pub dropped : List S
    pub same : dropped ++ after ≡ before ++ news
    pub bounded : length after ≤ cfg.queue_size
    pub whole : length before + length news ≤ cfg.queue_size → dropped ≡ []

  unchanged : (q : List S) → length q ≤ cfg.queue_size → Follows q [] q
  unchanged q h = record { dropped = []; same = sym (append-nil q); bounded = h; whole = λ _. refl }

  module _ (positive : 0 < cfg.queue_size) where
    not_full : (q : List S) → length q < cfg.queue_size → leb cfg.queue_size (length q) ≡ false
    not_full q h = ground arith

    is_full : (q : List S) → cfg.queue_size ≤ length q → leb cfg.queue_size (length q) ≡ true
    is_full q h = ground arith

    offer_room : (x : S) (q : List S) → length q < cfg.queue_size → offer cfg x q ≡ q ++ (x ∷ [])
    unfolding offer
    offer_room x q h = rw (not_full q h, not_full q h) refl

    offer_full :
        (x y : S) (q : List S)
        → length (y ∷ q) ≡ cfg.queue_size
        → offer cfg x (y ∷ q) ≡ q ++ (x ∷ [])
    unfolding offer
    offer_full x y q h = rw (is_full (y ∷ q) (omega arith), not_full q (omega arith)) refl

    room : (q : List S) → leb cfg.queue_size (length q) ≡ false → length q < cfg.queue_size
    room q h = ground arith

    grown : (x : S) (q : List S) → length (q ++ (x ∷ [])) ≡ suc (length q)
    grown x q = omega (arith, length-append q (x ∷ []))

    -- A full queue loses its oldest, and the new snapshot comes last.
    offer-Follows :
        (x : S) (q : List S) → length q ≤ cfg.queue_size → Follows q (x ∷ []) (offer cfg x q)
    offer-Follows x q h = split q h (Bool-cases (leb cfg.queue_size (length q)))
      where
        split :
            (q : List S)
            → length q ≤ cfg.queue_size
            → (leb cfg.queue_size (length q) ≡ true) ⊎ (leb cfg.queue_size (length q) ≡ false)
            → Follows q (x ∷ []) (offer cfg x q)
        split q h (inr few) =
            let e = offer_room x q (room _ few) in
            record {
              dropped = [];
              same = e;
              bounded = omega (arith, ap length e, grown x q, room _ few);
              whole = λ _. refl;
            }
        split [] h (inl full) = ground arith
        split (y ∷ q) h (inl full) =
            let e = offer_full x y q (omega (arith, leb→le _ _ full)) in
            record {
              dropped = y ∷ [];
              same = ap (λ r. y ∷ r) e;
              bounded = omega (arith, ap length e, grown x q, h);
              whole = λ fits. absurd (omega (arith, fits, leb→le _ _ full));
            }

    -- One cycle: the queue is offered what the source was read for, and each such read is counted.
    pub record Polled (s t : Poller S) (news : List S) : Type 0 where
      pub queued : Follows s.queue news t.queue
      pub counted : t.cycles_completed ≡ s.cycles_completed + length news
      pub running : t.stop ≡ s.stop

    failed :
        (b : Bool) (s : Poller S)
        → length s.queue ≤ cfg.queue_size
        → Polled s (on_failure cfg b s) []
    unfolding on_failure
    failed true s h =
        let state =
          if leb cfg.threshold (suc s.consecutive_failures) then circuit_open else degraded in
        if_elim (λ (c : Poller S). Polled s (record c { state = state }) []) s.source
          (λ _. record { queued = unchanged s.queue h; counted = omega arith; running = refl })
          (λ _. record { queued = unchanged s.queue h; counted = omega arith; running = refl })
    failed false s h = record {
      queued = unchanged s.queue h;
      counted = omega arith;
      running = refl;
    }

    read_snapshot-Polled :
        (r : Reading S) (now : ℕ) (s : Poller S)
        → length s.queue ≤ cfg.queue_size
        → Polled s (read_snapshot cfg r now s) (snaps r)
    unfolding read_snapshot on_success
    read_snapshot-Polled (snap x) now s h = record {
      queued = offer-Follows x s.queue h;
      counted = omega arith;
      running = refl;
    }
    read_snapshot-Polled handle_error now s h = failed true s h
    read_snapshot-Polled other_error now s h = failed false s h

    connect-Polled :
        (connects : Bool) (s : Poller S)
        → length s.queue ≤ cfg.queue_size
        → Polled s (connect cfg connects s) []
    unfolding connect
    connect-Polled true s h = record {
      queued = unchanged s.queue h;
      counted = omega arith;
      running = refl;
    }
    connect-Polled false s h =
        let lost = failed false (record s { source = false }) h in
        record { queued = lost.queued; counted = lost.counted; running = lost.running }

    answer-Polled :
        (w : Weather S) (s : Poller S)
        → length s.queue ≤ cfg.queue_size
        → Polled s (answer cfg w s) (snapped_in w s.source)
    unfolding answer
    answer-Polled w s h = pick s.source
      where
        pick :
            (b : Bool)
            → Polled s
                (if b then read_snapshot cfg w.reading w.done_at s else on_failure cfg false s)
                (snapped_in w b)
        pick true = read_snapshot-Polled w.reading w.done_at s h
        pick false = failed false s h

    -- A connect that fails is counted, and so is the cycle it belongs to.
    connected-Polled :
        (w : Weather S) (c : Bool) (s : Poller S)
        → length s.queue ≤ cfg.queue_size
        → Polled s (answer cfg w (connect cfg c s)) (snapped_in w c)
    unfolding answer connect on_failure
    connected-Polled w true s h =
        let read = read_snapshot-Polled w.reading w.done_at (record s { source = true }) h in
        record { queued = read.queued; counted = read.counted; running = read.running }
    connected-Polled w false s h = record {
      queued = unchanged s.queue h;
      counted = omega arith;
      running = refl;
    }

    pub poll_once-Polled :
        (w : Weather S) (s : Poller S)
        → length s.queue ≤ cfg.queue_size
        → Polled s (poll_once cfg w s) (snapped_in w (s.source || w.connects))
    unfolding poll_once
    poll_once-Polled w s h = record {
      queued = once.queued;
      counted = once.counted;
      running = once.running;
    }
      where
        polled : Poller S
        polled = record s { last_poll_at = some w.polled_at }

        pick :
            (b : Bool)
            → b ≡ s.source
            → Polled polled
                (answer cfg w (if b then polled else connect cfg w.connects polled))
                (snapped_in w (b || w.connects))
        pick true e =
            subst (λ (b : Bool). Polled polled (answer cfg w polled) (snapped_in w b)) (sym e)
              (answer-Polled w polled h)
        pick false e = connected-Polled w w.connects polled h

        once :
            Polled polled
              (answer cfg w (if s.source then polled else connect cfg w.connects polled))
              (snapped_in w (s.source || w.connects))
        once = pick s.source refl
