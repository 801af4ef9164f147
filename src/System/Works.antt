-- ===== src/System/Works.antt =====
-- The tables of the library on Linux, on a system where neither LPT nor ppdev is found: their methods
-- return, whatever the port and the peripheral do, and leave the port to its user.
use mathlib.Core.Path.{subst}
use libieee.Port.Capable
use libieee.Port.E1284
use libieee.Port.Returns
use libieee.Common.{Bool, ap, false, length, meets, sym, ℕ, ◌<◌, ◌≡◌, ◌≤◌}
use libieee.Default.Link.{default_ecp_rev_to_fwd, default_terminate}
use libieee.Default.Link.Session.{Terminates, terminate-mode}
use libieee.Default.Nibble.Counts.{nibble_read-Delivered}
use libieee.Default.Stays.{
  Custody, Stays, custody, negotiate-Stays, nibble_read-Stays, rev_to_fwd-Stays, terminate-Stays,
}
use libieee.DeviceId.Fetched.{Working}
use libieee.Io.{io_pins}
use libieee.Io.Opened.{io_init-Usable}
use libieee.Io.Poll.{timely-QuietPins}
use libieee.Io.Session.{io-QuietData}
use libieee.Port.Clock.{lookup_delay, timeval_signal_timeout}
use libieee.Port.Host.{Host}
use libieee.Port.Life.{Held, Usable, unchanged}
use libieee.Port.Machine.{Machine, Table}
use libieee.Port.Methods.{Methods, Pins}
use libieee.Port.Quiet.{QuietPins}
use libieee.Port.Returns.{Returns, returns}
use libieee.Port.Run.{if_present, or_else}
use libieee.Port.Time.{Ticks, TimelyInput, us}
use libieee.System.{linux_methods}
use libieee.System.Opens.{linux_methods-LifetimeKept}

module _ {W : Type 0} {capabilities : ℕ} where
  Held_of :
      {s t : Machine W}
      → Usable capabilities s.port.fn
      → custody t ≡ custody s
      → Held capabilities s t
  Held_of usable e = record {
    life = ap (λ (x : Custody). x.life) e;
    filled = subst (Usable capabilities) (sym (ap (λ (x : Custody). x.fn) e)) usable;
  }

module _ {W : Type 0} (host : Host W) (ticks : Ticks host.clock) (timely : TimelyInput host)
    (rounds : ℕ) (enough : us (lookup_delay timeval_signal_timeout) < rounds) where
  abbrev pins : Pins W
  pins = io_pins host rounds

  quiet : QuietPins pins
  quiet = timely-QuietPins host ticks timely rounds enough

  turns : (s : Machine W) → Stays s (default_ecp_rev_to_fwd pins s)
  turns = rev_to_fwd-Stays quiet (io-QuietData host rounds)

  ends : (s : Machine W) → Stays s (default_terminate pins (default_ecp_rev_to_fwd pins) s)
  ends = terminate-Stays quiet turns

  ends-compat : Terminates (default_terminate pins (default_ecp_rev_to_fwd pins))
  ends-compat s =
      Returns.mono (terminate-mode quiet (λ t. Returns.mono (turns t) λ _ _ _. tt) s) λ _ t e. e.0

  module _ (capabilities : ℕ) (no_lpt : meets capabilities Capable.lpt ≡ false)
      (no_ppdev : meets capabilities Capable.ppdev ≡ false) where
    abbrev methods : Table → Methods W
    methods = linux_methods host rounds

    -- Only the table of port I/O is left.
    only_io :
        (P : Table → Type 0)
        → ((file_io : Bool) → P (Table.io_access_methods file_io))
        → (table : Table) → Usable capabilities table
        → P table
    only_io P of_io Table.zeroed usable = absurd usable
    only_io P of_io (Table.ppdev_access_methods own_nack) usable = absurd (cc)
    only_io P of_io Table.lpt_access_methods usable = absurd (cc)
    only_io P of_io (Table.io_access_methods file_io) usable = of_io file_io

    -- On a system with neither LPT nor ppdev, init, cleanup, claim, release, terminate, negotiate and
    -- nibble_read of the tables that the library can find return, on any port and with any answers of
    -- the peripheral: they leave the port open or not as it was, with its count, in memory, and with a
    -- table that can be found, and a nibble read stores no more bytes than it is asked for. The clock
    -- ticks while select sleeps, neither looking at it nor reading the lines turns it back, and the
    -- rounds are more than the microseconds of a tenth of a second.
    pub linux_methods-Working : Working methods capabilities
    linux_methods-Working = record {
      init = λ table s flags caps usable h.
          only_io
            (λ table. Returns (λ _ t. Held capabilities s t) ((methods table).init flags caps s))
            (λ file_io.
              Returns.mono
                (Returns.also
                  ((linux_methods-LifetimeKept host rounds capabilities no_lpt).init
                    (Table.io_access_methods file_io) tt s flags caps)
                  (io_init-Usable host capabilities flags caps s usable))
                λ _ t e. record { life = e.0; filled = e.1 })
            table h;
      cleanup =
          λ table s. (linux_methods-LifetimeKept host rounds capabilities no_lpt).cleanup table s;
      claim = λ table s h usable.
          only_io
            (λ table.
              Returns (λ _ t. Held capabilities s t) (or_else E1284.ok (methods table).claim s))
            (λ _. returns (unchanged s usable)) table h;
      release = λ table s h usable.
          only_io
            (λ table. Returns (λ _ t. Held capabilities s t) (if_present (methods table).release s))
            (λ _. returns (unchanged s usable)) table h;
      terminate = λ table s h usable.
          only_io (λ table. Returns (λ _ t. Held capabilities s t) ((methods table).terminate s))
            (λ _. Returns.mono (ends s) λ _ t e. Held_of usable e) table h;
      negotiate = λ table s mode h usable.
          only_io
            (λ table. Returns (λ _ t. Held capabilities s t) ((methods table).negotiate mode s))
            (λ _.
              Returns.mono (negotiate-Stays quiet ends host.clock mode s) λ _ t e. Held_of usable e)
            table h;
      nibble_read = λ table s flags len h usable.
          only_io
            (λ table.
              Returns (λ r t. Held capabilities s t × (length r.1 ≤ len))
                ((methods table).nibble_read flags len s))
            (λ _.
              Returns.mono
                (Returns.also (nibble_read-Stays quiet ends flags len s)
                  (nibble_read-Delivered quiet ends-compat flags len s))
                λ r t e. (Held_of usable e.0, e.1.fits))
            table h;
    }
