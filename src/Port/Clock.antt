-- ===== src/Port/Clock.antt =====
-- src/delay.h, src/delay.c and the `delay` of src/access.h: deadlines on the system's clock.
use libieee.Common.{Bool, if◌then◌else◌, ltb, suc, zero, ℕ, ◌%◌, ◌&&◌, ◌+◌, ◌/◌, ◌==◌, ◌||◌}
use libieee.Port.Run.{Run, ask, out_of_rounds, put, skip, ◌>>=◌}

-- struct timeval
pub record TimeVal : Type 0 where
  pub tv_sec : ℕ
  pub tv_usec : ℕ

-- The system calls for time: gettimeofday, and a select that waits on no file.
pub record Clock (W : Type 0) : Type 0 where
  pub gettimeofday : W → TimeVal × W
  pub select : TimeVal → W → W

-- enum Delays
pub data Delays : Type 0 where
  io_poll_delay timeval_signal_timeout timeval_strobe_delay : Delays

-- lookup_delay, with delay_table.
abbrev pub delay_table : Delays → ℕ
delay_table io_poll_delay = 1
delay_table timeval_signal_timeout = 100000
delay_table timeval_strobe_delay = 1

abbrev pub lookup_delay : Delays → TimeVal
lookup_delay which = record { tv_sec = 0; tv_usec = delay_table which }

-- The deadline `timeout` after `now`: the sums, and the carry of the microseconds.
unfoldable pub deadline_after : TimeVal → TimeVal → TimeVal
deadline_after now timeout =
    let usec = now.tv_usec + timeout.tv_usec in
    record { tv_sec = now.tv_sec + timeout.tv_sec + usec / 1000000; tv_usec = usec % 1000000 }

-- The condition of the polling loops.
unfoldable pub before : TimeVal → TimeVal → Bool
before now deadline =
    ltb now.tv_sec deadline.tv_sec
    || now.tv_sec == deadline.tv_sec && ltb now.tv_usec deadline.tv_usec

module _ {W : Type 0} (clock : Clock W) where
  unfoldable pub delay : Delays → Run W (Unit {0})
  delay which = put (clock.select (lookup_delay which))

  -- The do-while loop of udelay, for at most so many rounds.
  unfoldable pub udelay_loop : ℕ → TimeVal → Run W (Unit {0})
  udelay_loop zero deadline = λ _. out_of_rounds
  udelay_loop (suc k) deadline = do
    now ← ask clock.gettimeofday
    if before now deadline then udelay_loop k deadline else skip

  unfoldable pub udelay : ℕ → ℕ → Run W (Unit {0})
  unfolding udelay_loop
  udelay rounds usec = do
    now ← ask clock.gettimeofday
    udelay_loop rounds (deadline_after now (record { tv_sec = 0; tv_usec = usec }))
