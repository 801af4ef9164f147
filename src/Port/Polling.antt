-- ===== src/Port/Polling.antt =====
-- The polling loops with a deadline, of src/access_io.c, src/access_lpt.c and src/default.c, in
-- one form: look, stop if what is seen is what is waited for, sleep, and compare the time.
use libieee.Port.E1284
use libieee.Port.Returns
use libieee.Common.{
  Bool, arith, if◌then◌else◌, inl, inr, refl, suc, zero, ℕ, ℤ, ◌+◌, ◌<◌, ◌∙◌, ◌≡◌, ◌≤◌, ◌⊎◌,
}
use libieee.Port.Clock.{Clock, TimeVal, before, deadline_after, delay, io_poll_delay, lookup_delay}
use libieee.Port.Machine.{Machine}
use libieee.Port.Returns.{Returns, returns}
use libieee.Port.Run.{Run, ask, out_of_rounds, pure, ◌>>=◌, ◌>>◌}
use libieee.Port.Time.{
  IsNormal, Ticks, deadline_after-IsNormal, le_of_not_before, lt_of_before, reading, us,
  us-deadline_after,
}

module _ {W : Type 0} (clock : Clock W) where
  -- A look that returns, leaves the port, and does not turn the clock back.
  pub record Looked (s t : Machine W) : Type 0 where
    pub port : t.port ≡ s.port
    pub live : t.live ≡ s.live
    pub later : reading clock s.world ≤ reading clock t.world

  -- What a wait returns and leaves: success, or a timeout with the clock at the deadline or past it.
  pub record Polled (s : Machine W) (deadline : ℕ) (r : ℤ) (t : Machine W) : Type 0 where
    pub port : t.port ≡ s.port
    pub live : t.live ≡ s.live
    pub verdict : (r ≡ E1284.ok) ⊎ ((r ≡ E1284.timedout) × (deadline ≤ reading clock t.world))

  module _ (look : Run W ℤ) (seen : ℤ → Bool) (deadline : TimeVal) where
    -- One round, before the rounds `rest`.
    unfoldable pub poll_round : Run W ℤ → Run W ℤ
    unfolding delay
    poll_round rest = do
      shown_now ← look
      if seen shown_now then pure E1284.ok else do
        delay clock io_poll_delay
        now ← ask clock.gettimeofday
        if before now deadline then rest else pure E1284.timedout

    unfoldable pub poll_loop : ℕ → Run W ℤ
    unfolding poll_round
    poll_loop zero = λ _. out_of_rounds
    poll_loop (suc k) = poll_round (poll_loop k)

  poll_loop-Polled :
      (look : Run W ℤ) (seen : ℤ → Bool) (deadline : TimeVal)
      → Ticks clock
      → ((s : Machine W) → Returns (λ _ t. Looked s t) (look s))
      → IsNormal deadline
      → (k : ℕ) (s : Machine W) → 0 < k
      → us deadline ≤ reading clock s.world + k
      → Returns (Polled s (us deadline)) (poll_loop look seen deadline k s)
  unfolding poll_loop
  poll_loop-Polled look seen deadline ticks looks normal zero s p h = absurd (omega arith)
  poll_loop-Polled look seen deadline ticks looks normal (suc k) s p h =
      Returns.bind (looks s) λ shown_now t e.
        let slept = clock.select (lookup_delay io_poll_delay) t.world in
        let now = clock.gettimeofday slept in
        let late = ticks.sleep t.world (lookup_delay io_poll_delay) in
        let looked = ticks.look slept in
        Returns.branch (seen shown_now) _ _ t
          (λ _. returns (record { port = e.port; live = e.live; verdict = inl refl }))
          λ _.
            Returns.branch (before now.0 deadline) _ _ _
              (λ early.
                let soon = lt_of_before now.0 deadline (ticks.normal slept) normal early in
                Returns.mono
                  (poll_loop-Polled look seen deadline ticks looks normal k
                    (record t { world = now.1 }) (omega (arith, soon, late, looked, e.later))
                    (omega (arith, soon, late, looked, e.later)))
                  λ r u w. record {
                    port = w.port ∙ e.port;
                    live = w.live ∙ e.live;
                    verdict = w.verdict;
                  })
              λ over.
                let passed = le_of_not_before now.0 deadline (ticks.normal slept) normal over in
                returns (record {
                  port = e.port;
                  live = e.live;
                  verdict = inr (refl, omega (arith, passed, looked));
                })

  -- A wait that looks at the clock, and polls up to the deadline that it makes of its timeout.
  abbrev pub poll_from_now : (ℕ → TimeVal → Run W ℤ) → ℕ → TimeVal → Run W ℤ
  poll_from_now loop rounds timeout = do
    now ← ask clock.gettimeofday
    loop rounds (deadline_after now timeout)

  pub poll_from_now-Polled :
      (look : Run W ℤ) (seen : ℤ → Bool)
      → Ticks clock
      → ((s : Machine W) → Returns (λ _ t. Looked s t) (look s))
      → (loop : ℕ → TimeVal → Run W ℤ)
      → ((k : ℕ) (deadline : TimeVal) → loop k deadline ≡ poll_loop look seen deadline k)
      → (rounds : ℕ) (timeout : TimeVal) (s : Machine W) → us timeout < rounds
      → Returns
          (Polled s (reading clock s.world + us timeout))
          (poll_from_now loop rounds timeout s)
  poll_from_now-Polled look seen ticks looks loop same rounds timeout s h =
      let now = clock.gettimeofday s.world in
      let sum = us-deadline_after now.0 timeout in
      rw (same rounds (deadline_after now.0 timeout)) (
        Returns.mono
          (poll_loop-Polled look seen (deadline_after now.0 timeout) ticks looks
            (deadline_after-IsNormal now.0 timeout) rounds (record s { world = now.1 })
            (omega arith) (omega (arith, sum, ticks.look s.world)))
          λ r t w. record { port = w.port; live = w.live; verdict = rw (← sum) w.verdict })
