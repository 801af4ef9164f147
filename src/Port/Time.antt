-- ===== src/Port/Time.antt =====
-- The clock, read in microseconds, and what the polling loops need of it.
use libieee.Common.{arith, false, true, ℕ, ℤ, ◌*◌, ◌+◌, ◌<◌, ◌≡◌, ◌≤◌}
use libieee.Port.Clock.{Clock, TimeVal, before, deadline_after}
use libieee.Port.Host.{Host}

abbrev pub us : TimeVal → ℕ
us t = t.tv_sec * 1000000 + t.tv_usec

-- A time with its microseconds carried.
abbrev pub IsNormal : TimeVal → Type 0
IsNormal t = t.tv_usec < 1000000

-- What the clock shows.
abbrev pub reading : {W : Type 0} → Clock W → W → ℕ
reading clock w = us (clock.gettimeofday w).0

-- gettimeofday returns a carried time, looking at the clock does not turn it back, and select
-- sleeps for the time that it is given.
pub record Ticks {W : Type 0} (clock : Clock W) : Type 0 where
  pub normal : (w : W) → IsNormal (clock.gettimeofday w).0
  pub look : (w : W) → reading clock w ≤ reading clock (clock.gettimeofday w).1
  pub sleep : (w : W) (t : TimeVal) → reading clock w + us t ≤ reading clock (clock.select t w)

-- Input does not turn the clock back.
pub record TimelyInput {W : Type 0} (host : Host W) : Type 0 where
  pub inb : (w : W) (addr : ℕ) → reading host.clock w ≤ reading host.clock (host.inb addr w).1
  pub lseek :
      (w : W) (fd : ℤ) (at : ℕ) → reading host.clock w ≤ reading host.clock (host.lseek fd at w).1
  pub read :
      (w : W) (fd : ℤ) (n : ℕ) → reading host.clock w ≤ reading host.clock (host.read fd n w).1

-- A deadline lies the timeout after the time that it is counted from, and is carried.
pub us-deadline_after :
    (now timeout : TimeVal) → us (deadline_after now timeout) ≡ us now + us timeout
unfolding deadline_after
us-deadline_after now timeout = omega arith

pub deadline_after-IsNormal : (now timeout : TimeVal) → IsNormal (deadline_after now timeout)
unfolding deadline_after
deadline_after-IsNormal now timeout = omega arith

-- The comparison of seconds, then of microseconds, is that of the times.
module _ (now deadline : TimeVal) (p : IsNormal now) (q : IsNormal deadline) where
  pub lt_of_before : before now deadline ≡ true → us now < us deadline
  unfolding before
  lt_of_before h = ground arith

  pub le_of_not_before : before now deadline ≡ false → us deadline ≤ us now
  unfolding before
  le_of_not_before h = ground arith
