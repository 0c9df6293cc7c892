-- ===== src/Service/Breaker.antt =====
-- The circuit breaker of shared/focas/service.py.
use pottracker.Prelude.{
  ℕ, suc, ◌+◌, ◌-◌, ◌<◌, ◌≡◌, ◌⊎◌, inl, inr, refl, sym, ◌∙◌, ap, Bool, true, false, List, [], ◌∷◌,
  ◌++◌, if◌then◌else◌, leb, ltb, arith, length, if_elim, All,
}
use pottracker.Service.{
  healthy, degraded, circuit_open, stopped, other_error, ServiceConfig, Reading, snap, handle_error,
  focas_error, Weather, Service, close_source, sleep, connect, on_read_failure, sleep_remaining,
  run_cycle, after_connect, round, run,
}

below_threshold : (m n : ℕ) → leb m n ≡ false → n < m
below_threshold m n h = ground arith

not_reached : (n m : ℕ) → n < m → leb m n ≡ false
not_reached n m h = ground arith

reached : (n m : ℕ) → n ≡ m → leb m n ≡ true
reached n m h = ground arith

ltb-true : (n m : ℕ) → n < m → ltb n m ≡ true
ltb-true n m h = ground arith

true-false : true ≡ false → ⊥
true-false h = ground arith

module _ (cfg : ServiceConfig) where
  -- Between two rounds.
  pub record IsWell (s : Service) : Type 0 where
    pub below : s.consecutive < cfg.breaker_threshold
    pub live :
        s.source ≡ true
        → ((s.state ≡ healthy) × (s.consecutive ≡ 0)) ⊎ ((s.state ≡ degraded) × (0 < s.consecutive))
    pub cooled : s.state ≡ circuit_open → (s.source ≡ false) × (s.consecutive ≡ 0)
    pub counted : length s.handed ≡ s.cycles_ok
    pub over : s.ended ≡ true → (s.state ≡ stopped) × (s.source ≡ false)

  module _ (positive : 0 < cfg.breaker_threshold) where
    on_read_failure-IsWell :
        (s : Service)
        → 0 < s.consecutive
        → length s.handed ≡ s.cycles_ok
        → s.ended ≡ false
        → IsWell (on_read_failure cfg s)
    unfolding on_read_failure
    on_read_failure-IsWell s some_failure counted runs =
        if_elim IsWell (leb cfg.breaker_threshold s.consecutive)
          (λ _. record {
            below = positive;
            live = λ e. ground arith;
            cooled = λ e. (refl, refl);
            counted = counted;
            over = λ e. absurd (true-false (sym e ∙ runs));
          })
          (λ few. record {
            below = below_threshold _ _ few;
            live = λ e. inr (refl, some_failure);
            cooled = λ e. ground arith;
            counted = counted;
            over = λ e. absurd (true-false (sym e ∙ runs));
          })

    sleep-IsWell : (n : ℕ) (s : Service) → IsWell s → IsWell (sleep n s)
    sleep-IsWell n s h = record {
      below = h.below;
      live = h.live;
      cooled = h.cooled;
      counted = h.counted;
      over = h.over;
    }

    run_cycle-IsWell :
        (reading : Reading) (elapsed : ℕ) (s : Service)
        → IsWell s
        → s.ended ≡ false
        → IsWell (run_cycle cfg reading elapsed s)
    unfolding run_cycle
    run_cycle-IsWell (snap snapshot) elapsed s h runs = record {
      below = positive;
      live = λ e. inl (refl, refl);
      cooled = λ e. ground arith;
      counted = ap suc h.counted;
      over = λ e. absurd (true-false (sym e ∙ runs));
    }
    run_cycle-IsWell handle_error elapsed s h runs =
        on_read_failure-IsWell (close_source (record s { consecutive = suc s.consecutive }))
          (omega arith) h.counted runs
    run_cycle-IsWell focas_error elapsed s h runs =
        let failed = on_read_failure cfg (record s { consecutive = suc s.consecutive }) in
        let slept =
          if leb cfg.breaker_threshold (suc s.consecutive) then cfg.cooldown_seconds else 0 in
        if_elim IsWell (ltb failed.consecutive cfg.breaker_threshold)
          {x = sleep_remaining cfg (elapsed + slept) failed}
          (λ _. sleep-IsWell (cfg.interval_seconds - (elapsed + slept)) failed (
            on_read_failure-IsWell (record s { consecutive = suc s.consecutive }) (omega arith)
              h.counted runs))
          (λ _.
            on_read_failure-IsWell (record s { consecutive = suc s.consecutive }) (omega arith)
              h.counted runs)
    run_cycle-IsWell other_error elapsed s h runs = record {
      below = h.below;
      live = λ e. absurd (true-false (sym e));
      cooled = λ e. ground arith;
      counted = h.counted;
      over = λ e. (refl, refl);
    }

    reconnect-IsWell :
        (connects : Bool) (w : Weather) (s : Service)
        → IsWell s
        → s.source ≡ false
        → s.ended ≡ false
        → IsWell (after_connect cfg w (connect cfg connects s))
    unfolding connect
    reconnect-IsWell true w s h closed runs =
        run_cycle-IsWell w.reading w.elapsed _
          (record {
            below = positive;
            live = λ e. inl (refl, refl);
            cooled = λ e. ground arith;
            counted = h.counted;
            over = λ e. absurd (true-false (sym e ∙ runs));
          })
          runs
    reconnect-IsWell false w s h closed runs = record {
      below = h.below;
      live = λ e. absurd (true-false (sym e ∙ closed));
      cooled = λ e. ground arith;
      counted = h.counted;
      over = λ e. absurd (true-false (sym e ∙ runs));
    }

    round-IsWell : (w : Weather) (s : Service) → IsWell s → IsWell (round cfg w s)
    unfolding round
    round-IsWell w s h =
        if_elim IsWell s.ended (λ _. h)
          (λ runs.
            if_elim IsWell s.source (λ _. run_cycle-IsWell w.reading w.elapsed s h runs)
              (λ closed. reconnect-IsWell w.connects w s h closed runs))

    -- From a state between two rounds, whatever the connects and reads give, with a positive threshold:
    -- the failures in a row are below the threshold; while a connection stands the service is healthy
    -- with no failure, or degraded with some; an open breaker has closed the connection and counts from
    -- zero; one snapshot was handed to the persisting for each good cycle; and a run that an exception
    -- ended is stopped with its connection closed.
    pub run-IsWell : (ws : List Weather) (s : Service) → IsWell s → IsWell (run cfg ws s)
    unfolding run
    run-IsWell [] s h = h
    run-IsWell (w ∷ ws) s h = run-IsWell ws (round cfg w s) (round-IsWell w s h)

-- Read failures only, on a connection that stands.
abbrev pub Failing : List Weather → Type 0
Failing ws = All (λ w. w.reading ≡ focas_error) ws

module _ (cfg : ServiceConfig) where
  -- One failed read below the threshold.
  failed_round :
      (w : Weather) (s : Service)
      → w.reading ≡ focas_error
      → s.source ≡ true
      → s.ended ≡ false
      → suc s.consecutive < cfg.breaker_threshold
      → let t = round cfg w s in
        (t.source ≡ true)
        × (t.consecutive ≡ suc s.consecutive)
        × (t.state ≡ degraded)
        × (t.ended ≡ false)
  unfolding round run_cycle on_read_failure
  failed_round w s e o runs few =
      rw (runs, o, e, not_reached _ _ few, ltb-true _ _ few) (refl, refl, refl, refl)

  run-Failing :
      (ws : List Weather) (s : Service)
      → Failing ws
      → s.source ≡ true
      → s.ended ≡ false
      → s.consecutive + length ws < cfg.breaker_threshold
      → let t = run cfg ws s in
        (t.source ≡ true) × (t.consecutive ≡ s.consecutive + length ws) × (t.ended ≡ false)
  unfolding run
  run-Failing [] s h stands runs few = (stands, omega arith, runs)
  run-Failing (w ∷ ws) s h stands runs few =
      let once = failed_round w s h.0 stands runs (omega arith) in
      let rest = run-Failing ws (round cfg w s) h.1 once.0 once.3 (omega (arith, once.1, few)) in
      (rest.0, omega (arith, rest.1, once.1), rest.2)

  round-opens :
      (w : Weather) (s : Service)
      → w.reading ≡ focas_error
      → s.source ≡ true
      → s.ended ≡ false
      → suc s.consecutive ≡ cfg.breaker_threshold
      → let t = round cfg w s in
        (t.state ≡ circuit_open)
        × (t.source ≡ false)
        × (t.consecutive ≡ 0)
        × (t.waits
            ≡ (cfg.interval_seconds - (w.elapsed + cfg.cooldown_seconds))
              ∷ cfg.cooldown_seconds
              ∷ s.waits)
  unfolding round run_cycle on_read_failure
  round-opens w s e o runs full =
      rw (runs, o, e, reached _ _ full, ltb-true 0 cfg.breaker_threshold (omega (arith, full)))
        (refl, refl, refl, refl)

  run-append :
      (ws : List Weather) (w : Weather) (s : Service)
      → run cfg (ws ++ (w ∷ [])) s ≡ round cfg w (run cfg ws s)
  unfolding run
  run-append [] w s = refl
  run-append (v ∷ ws) w s = run-append ws w (round cfg v s)

  -- Reads that fail with a FocasError other than a stale handle, one after another on a connection that
  -- stands: while they are fewer than the threshold, with the failures before, the connection stays and each
  -- is counted; with the one that reaches the threshold the breaker opens, the connection is closed, the
  -- failures count from zero, and the service waits the cooldown and then what is left of the interval.
  pub run-opens :
      (ws : List Weather) (w : Weather) (s : Service)
      → Failing ws
      → w.reading ≡ focas_error
      → s.source ≡ true
      → s.ended ≡ false
      → s.consecutive + length ws + 1 ≡ cfg.breaker_threshold
      → let before = run cfg ws s in
        let after = run cfg (ws ++ (w ∷ [])) s in
        (before.source ≡ true)
        × (before.consecutive ≡ s.consecutive + length ws)
        × (after.state ≡ circuit_open)
        × (after.source ≡ false)
        × (after.consecutive ≡ 0)
        × (after.waits
            ≡ (cfg.interval_seconds - (w.elapsed + cfg.cooldown_seconds))
              ∷ cfg.cooldown_seconds
              ∷ before.waits)
  run-opens ws w s h e stands runs full =
      let few = run-Failing ws s h stands runs (omega (arith, full)) in
      let last = round-opens w (run cfg ws s) e few.0 few.2 (omega (arith, few.1, full)) in
      rw (run-append ws w s) (few.0, few.1, last.0, last.1, last.2, last.3)
