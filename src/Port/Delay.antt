-- ===== src/Port/Delay.antt =====
-- The busy wait udelay of src/delay.c, on a clock that goes on while it is looked at.
use native.Mathlib.Nat.{
  le_trans, lt_of_le_of_lt, mul-le-mul_right, suc-add, suc-mul, zero-add, zero-mul,
}
use libieee.Port.Returns
use libieee.Common.{ap, arith, refl, suc, zero, ℕ, ◌*◌, ◌+◌, ◌<◌, ◌∙◌, ◌≡◌, ◌≤◌}
use libieee.Port.Clock.{Clock, TimeVal, before, deadline_after, udelay, udelay_loop}
use libieee.Port.Machine.{Machine, Port}
use libieee.Port.Quiet.{Waits, session_of}
use libieee.Port.Returns.{Returns, returns}
use libieee.Port.Time.{
  IsNormal, deadline_after-IsNormal, le_of_not_before, lt_of_before, reading, us, us-deadline_after,
}

-- The world after so many looks at the clock.
abbrev pub looked : {W : Type 0} → Clock W → ℕ → W → W
looked clock zero w = w
looked clock (suc n) w = looked clock n (clock.gettimeofday w).1

-- gettimeofday returns a carried time and does not go back. The clock goes on: of so many looks one
-- after the other, `pace` and one, the last shows a later time than the first. The others may show
-- the same time.
pub record Advances {W : Type 0} (clock : Clock W) (pace : ℕ) : Type 0 where
  pub normal : (w : W) → IsNormal (clock.gettimeofday w).0
  pub look : (w : W) → reading clock w ≤ reading clock (clock.gettimeofday w).1
  pub goes_on : (w : W) → reading clock w < reading clock (looked clock pace w)

module _ {W : Type 0} (clock : Clock W) (pace : ℕ) (steps : Advances clock pace) where
  -- The end of a delay from machine `s`: the clock shows the deadline past, and only the world has
  -- moved on.
  pub record Delayed (s : Machine W) (deadline : ℕ) (t : Machine W) : Type 0 where
    pub port : t.port ≡ s.port
    pub live : t.live ≡ s.live
    pub late : deadline ≤ reading clock t.world

  looked-sum : (m n : ℕ) (w : W) → looked clock (m + n) w ≡ looked clock n (looked clock m w)
  looked-sum zero n w = ap (λ i. looked clock i w) (zero-add n)
  looked-sum (suc m) n w =
      ap (λ i. looked clock i w) (suc-add m n) ∙ looked-sum m n (clock.gettimeofday w).1

  -- `pace` looks for each microsecond.
  looked-late : (n : ℕ) (w : W) → reading clock w + n ≤ reading clock (looked clock (n * pace) w)
  looked-late zero w = rw (zero-mul pace) (omega arith)
  looked-late (suc n) w =
      let before_last = looked clock (n * pace) w in
      let strict = lt_of_le_of_lt (looked-late n w) (steps.goes_on before_last) in
      rw (suc-mul n pace, looked-sum (n * pace) pace w) (omega (arith, strict))

  -- A loop with a round for each look returns, if one of the looks shows the deadline past.
  udelay_loop-Delayed :
      (k n : ℕ) (deadline : TimeVal) (s : Machine W)
      → IsNormal deadline
      → n < k
      → us deadline ≤ reading clock (looked clock n s.world)
      → Returns (λ _ t. Delayed s (us deadline) t) (udelay_loop clock k deadline s)
  unfolding udelay_loop
  udelay_loop-Delayed zero n deadline s normal p h = absurd (omega arith)
  udelay_loop-Delayed (suc k) zero deadline s normal p h =
      let now = clock.gettimeofday s.world in
      let kept = steps.look s.world in
      Returns.branch (before now.0 deadline) _ _ _
        (λ early.
          let soon = lt_of_before now.0 deadline (steps.normal s.world) normal early in
          absurd (omega (arith, h, soon)))
        λ over. returns (record { port = refl; live = refl; late = le_trans h kept })
  udelay_loop-Delayed (suc k) (suc n) deadline s normal p h =
      let now = clock.gettimeofday s.world in
      Returns.branch (before now.0 deadline) _ _ _
        (λ _.
          Returns.mono
            (udelay_loop-Delayed k n deadline (record s { world = now.1 }) normal (omega (arith, p))
              h)
            λ r u w. record { port = w.port; live = w.live; late = w.late })
        λ over.
          let passed = le_of_not_before now.0 deadline (steps.normal s.world) normal over in
          let kept = steps.look s.world in
          returns (record { port = refl; live = refl; late = omega (arith, passed, kept) })

  -- A busy wait returns, with `pace` rounds for each microsecond and one more, and not before the
  -- clock shows them past; only the world has moved on. The clock does not go back, and of `pace`
  -- looks and one more, the last shows a later time than the first.
  pub udelay-Delayed :
      (rounds usec : ℕ) (s : Machine W)
      → usec * pace < rounds
      → Returns (λ _ t. Delayed s (reading clock s.world + usec) t) (udelay clock rounds usec s)
  unfolding udelay
  udelay-Delayed rounds usec s h =
      let now = clock.gettimeofday s.world in
      let sum = us-deadline_after now.0 (record { tv_sec = 0; tv_usec = usec }) in
      let late = looked-late usec now.1 in
      let kept = steps.look s.world in
      Returns.mono
        (udelay_loop-Delayed rounds (usec * pace)
          (deadline_after now.0 (record { tv_sec = 0; tv_usec = usec }))
          (record s { world = now.1 })
          (deadline_after-IsNormal now.0 (record { tv_sec = 0; tv_usec = usec })) h
          (omega (arith, sum, late, kept)))
        λ r t w. record { port = w.port; live = w.live; late = omega (arith, sum, w.late) }

  pub advancing-Waits : (rounds limit : ℕ) → limit * pace < rounds → Waits clock rounds limit
  advancing-Waits rounds limit h s usec le =
      Returns.mono (udelay-Delayed rounds usec s (lt_of_le_of_lt (mul-le-mul_right pace le) h))
        λ _ t d. record {
          same = ap (λ (p : Port). session_of p t.live) d.port ∙ ap (session_of s.port) d.live;
        }
