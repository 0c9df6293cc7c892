-- ===== src/Poller/Breaker.antt =====
-- The failure counter and the breaker of the poller.
use pottracker.Prelude.{
  ℕ, suc, ◌+◌, ◌*◌, ◌≤◌, ◌<◌, ◌≡◌, refl, Bool, true, false, List, [], ◌∷◌, some, if◌then◌else◌, leb,
  leb→le, arith, length, All, if_elim, Bool-cases, ◌⊎◌, inl, inr,
}
use pottracker.Poller.{
  Settings, PollerState, init, healthy, degraded, circuit_open, shutdown, Reading, snap,
  handle_error, other_error, Weather, Poller, on_success, on_failure, connect, read_snapshot,
  answer, poll_once, Event, cycle, take, stop, World, taken, meanwhile, cycled, step, steps,
}

-- What a state says of the failures in a row.
unfoldable pub Matches : Settings → PollerState → ℕ → Type 0
Matches cfg init n = n ≡ 0
Matches cfg healthy n = n ≡ 0
Matches cfg degraded n = (0 < n) × (n < cfg.threshold)
Matches cfg circuit_open n = cfg.threshold ≤ n
Matches cfg shutdown n = Unit

module _ (cfg : Settings) where
  few : (n : ℕ) → leb cfg.threshold n ≡ false → n < cfg.threshold
  few n h = ground arith

  judged : (n : ℕ) → 0 < n → Matches cfg (if leb cfg.threshold n then circuit_open else degraded) n
  unfolding Matches
  judged n positive =
      if_elim (λ (state : PollerState). Matches cfg state n) (leb cfg.threshold n)
        (λ many. leb→le _ _ many) (λ h. (positive, few n h))

  opens :
      (n : ℕ)
      → cfg.threshold ≤ n
      → Path PollerState (if leb cfg.threshold n then circuit_open else degraded) circuit_open
  opens n many = ground arith

  degrades :
      (n : ℕ)
      → n < cfg.threshold
      → Path PollerState (if leb cfg.threshold n then circuit_open else degraded) degraded
  degrades n less = ground arith

module _ {S : Type 0} (cfg : Settings) where
  abbrev pub IsTracked : Poller S → Type 0
  IsTracked s = Matches cfg s.state s.consecutive_failures

  on_failure-IsTracked : (b : Bool) (s : Poller S) → IsTracked (on_failure cfg b s)
  unfolding on_failure
  on_failure-IsTracked true s = split s.source
    where
      counted : Poller S
      counted = record s {
        cycles_failed = suc s.cycles_failed;
        consecutive_failures = suc s.consecutive_failures;
      }

      split :
          (b : Bool)
          → let closed = if b then record counted { source = false } else counted in
            Matches cfg
              (if leb cfg.threshold (suc s.consecutive_failures) then circuit_open else degraded)
              closed.consecutive_failures
      split true = judged cfg (suc s.consecutive_failures) (omega arith)
      split false = judged cfg (suc s.consecutive_failures) (omega arith)
  on_failure-IsTracked false s = judged cfg (suc s.consecutive_failures) (omega arith)

  read_snapshot-IsTracked :
      (r : Reading S) (now : ℕ) (s : Poller S) → IsTracked (read_snapshot cfg r now s)
  unfolding read_snapshot on_success Matches
  read_snapshot-IsTracked (snap x) now s = refl
  read_snapshot-IsTracked handle_error now s = on_failure-IsTracked true s
  read_snapshot-IsTracked other_error now s = on_failure-IsTracked false s

  poll_once-IsTracked : (w : Weather S) (s : Poller S) → IsTracked (poll_once cfg w s)
  unfolding poll_once answer
  poll_once-IsTracked w s = pick (if s.source then polled else connect cfg w.connects polled)
    where
      polled : Poller S
      polled = record s { last_poll_at = some w.polled_at }

      pick : (t : Poller S) → IsTracked (answer cfg w t)
      pick t =
          if_elim IsTracked t.source (λ _. read_snapshot-IsTracked w.reading w.done_at t)
            (λ _. on_failure-IsTracked false t)

  taken-IsTracked :
      (world : World S) (q : List S) → IsTracked world.poller → IsTracked (taken world q).poller
  taken-IsTracked world [] h = h
  taken-IsTracked world (x ∷ xs) h = h

  step-IsTracked :
      (e : Event S) (world : World S) → IsTracked world.poller → IsTracked (step cfg e world).poller
  unfolding step cycled
  step-IsTracked (cycle during w) world h =
      if_elim (λ (t : World S). IsTracked t.poller) world.poller.stop (λ _. h)
        (λ _. poll_once-IsTracked w (meanwhile during world).poller)
  step-IsTracked take world h = taken-IsTracked world world.poller.queue h
  step-IsTracked stop world h = h

  -- Through any cycles, takes and stops the state says what the counter holds: a healthy poller has no
  -- failure in a row, a degraded one some below the threshold, and an open breaker at least as many.
  pub steps-IsTracked :
      (es : List (Event S)) (world : World S)
      → IsTracked world.poller
      → IsTracked (steps cfg es world).poller
  unfolding steps
  steps-IsTracked [] world h = h
  steps-IsTracked (e ∷ es) world h =
      steps-IsTracked es (step cfg e world) (step-IsTracked e world h)

  abbrev pub poll_all : List (Weather S) → Poller S → Poller S
  poll_all [] s = s
  poll_all (w ∷ ws) s = poll_all ws (poll_once cfg w s)

  abbrev pub Refused : List (Weather S) → Type 0
  Refused ws = All (λ w. w.connects ≡ false) ws

  refused_cycle :
      (w : Weather S) (s : Poller S)
      → w.connects ≡ false
      → s.source ≡ false
      → let t = poll_once cfg w s in
        (t.source ≡ false)
        × (t.cycles_failed ≡ s.cycles_failed + 2)
        × (t.consecutive_failures ≡ s.consecutive_failures + 2)
        × ((cfg.threshold ≤ t.consecutive_failures) → t.state ≡ circuit_open)
        × ((t.consecutive_failures < cfg.threshold) → t.state ≡ degraded)
  unfolding poll_once answer connect on_failure
  refused_cycle w s refused closed =
      rw (closed, refused)
        (
          refl,
          omega arith,
          omega arith,
          λ many. opens cfg (suc (suc s.consecutive_failures)) many,
          λ less. degrades cfg (suc (suc s.consecutive_failures)) less,
        )

  -- While the control refuses every connect, each cycle of a poller without a source counts two
  -- failures: one for the connect and one for the read that had no source. So after n + 1 such cycles
  -- 2n + 2 failures are added, and the breaker is open if the failures in a row have reached the threshold,
  -- else the poller is degraded.
  pub poll_all-Refused :
      (w : Weather S) (ws : List (Weather S)) (s : Poller S)
      → Refused (w ∷ ws)
      → s.source ≡ false
      → let t = poll_all (w ∷ ws) s in
        (t.source ≡ false)
        × (t.cycles_failed ≡ s.cycles_failed + 2 * suc (length ws))
        × (t.consecutive_failures ≡ s.consecutive_failures + 2 * suc (length ws))
        × ((cfg.threshold ≤ t.consecutive_failures) → t.state ≡ circuit_open)
        × ((t.consecutive_failures < cfg.threshold) → t.state ≡ degraded)
  poll_all-Refused w [] s h closed =
      let once = refused_cycle w s h.0 closed in
      (once.0, omega (arith, once.1), omega (arith, once.2), once.3, once.4)
  poll_all-Refused w (x ∷ ws) s h closed =
      let once = refused_cycle w s h.0 closed in
      let rest = poll_all-Refused x ws (poll_once cfg w s) h.1 once.0 in
      (rest.0, omega (arith, once.1, rest.1), omega (arith, once.2, rest.2), rest.3, rest.4)

  -- A snapshot that is read makes the poller healthy from any state, an open breaker included: the
  -- failures in a row are none, the snapshot's time is the last success, and the total is kept.
  pub poll_once-recovers :
      (w : Weather S) (x : S) (s : Poller S)
      → w.reading ≡ snap x
      → w.connects ≡ true
      → let t = poll_once cfg w s in
        (t.state ≡ healthy)
        × (t.consecutive_failures ≡ 0)
        × (t.last_success_at ≡ some w.done_at)
        × (t.cycles_failed ≡ s.cycles_failed)
  unfolding poll_once answer connect read_snapshot on_success
  poll_once-recovers w x s e c = split (Bool-cases s.source)
    where
      polled : Poller S
      polled = record s { last_poll_at = some w.polled_at }

      split :
          (s.source ≡ true) ⊎ (s.source ≡ false)
          → let t = answer cfg w (if s.source then polled else connect cfg w.connects polled) in
            (t.state ≡ healthy)
            × (t.consecutive_failures ≡ 0)
            × (t.last_success_at ≡ some w.done_at)
            × (t.cycles_failed ≡ s.cycles_failed)
      split (inl stands) = rw (stands, e) (refl, refl, refl, refl)
      split (inr closed) = rw (closed, c, e) (refl, refl, refl, refl)
