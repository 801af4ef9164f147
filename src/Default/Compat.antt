-- ===== src/Default/Compat.antt =====
-- default_compat_write of src/default.c.
pub mod Printer
use libieee.Port.Control
use libieee.Port.Status
use libieee.Common.{List, [], if◌then◌else◌, pos, truthy, ℕ, ℤ, ◌+◌, ◌∪◌, ◌∷◌}
use libieee.Default.Link.{signal}
use libieee.Port.Clock.{Clock, delay, timeval_strobe_delay}
use libieee.Port.Methods.{Pins}
use libieee.Port.Run.{Run, pure, ◌>>=◌, ◌>>◌}

module _ {W : Type 0} (clock : Clock W) (pin : Pins W) where
  -- One byte to the printer, once it is not busy: the data lines, and a pulse on nStrobe.
  unfoldable pub strobe : ℕ → Run W (Unit {0})
  strobe byte = do
    delay clock timeval_strobe_delay
    pin.write_data byte
    pin.write_control (Control.ninit ∪ Control.nautofd)
    delay clock timeval_strobe_delay
    pin.write_control (Control.ninit ∪ Control.nautofd ∪ Control.nstrobe)
    delay clock timeval_strobe_delay

  -- The while loop over the rest of the buffer; `count` bytes are written.
  unfoldable pub compat_loop : Run W (Unit {0}) → List ℕ → ℕ → Run W ℤ
  unfolding strobe
  compat_loop terminate [] count = pure (pos count)
  compat_loop terminate (byte ∷ rest) count = do
    r ← pin.wait_status Status.busy 0 signal
    if truthy r
        then (do terminate; pure (pos count))
        else do strobe byte; compat_loop terminate rest (count + 1)

  unfoldable pub default_compat_write : Run W (Unit {0}) → ℕ → List ℕ → Run W ℤ
  unfolding compat_loop
  default_compat_write terminate flags buffer = compat_loop terminate buffer 0
