-- ===== src/Default/Byte.antt =====
-- default_byte_read of src/default.c.
use libieee.Port.Control
use libieee.Port.Status
use libieee.Common.{
  List, [], if◌then◌else◌, meets, pos, suc, to_byte, truthy, zero, ℕ, ◌++◌, ◌+◌, ◌∷◌,
}
use libieee.Default.Link.{signal}
use libieee.Port.Clock.{Clock, udelay}
use libieee.Port.Methods.{Pins, Received}
use libieee.Port.Run.{Run, call, call_with, pure, ◌>>=◌, ◌>>◌}

module _ {W : Type 0} (clock : Clock W) (rounds : ℕ) (pin : Pins W) where
  -- The for loop, with `n` bytes of the buffer left and `count` counted.
  unfoldable pub byte_loop : ℕ → ℕ → List ℕ → Run W Received
  byte_loop zero count stored = pure (pos count, stored)
  byte_loop (suc n) count stored = do
    status ← pin.read_status
    if meets (to_byte status) Status.perror
        then (do pin.frob_control Control.nautofd Control.nautofd; pure (pos count, stored))
        else do
          call_with pin.data_dir 1
          pin.frob_control Control.nautofd 0
          r ← pin.wait_status Status.nack 0 signal
          if truthy r
              then (do pin.frob_control Control.nautofd Control.nautofd; pure (pos count, stored))
              else do
                reg ← call pin.read_data
                pin.frob_control Control.nautofd Control.nautofd
                r ← pin.wait_status Status.nack Status.nack signal
                if truthy r then pure (pos count, stored ++ to_byte reg ∷ []) else do
                  pin.frob_control Control.nstrobe 0
                  udelay clock rounds 5
                  pin.frob_control Control.nstrobe Control.nstrobe
                  byte_loop n (count + 1) (stored ++ to_byte reg ∷ [])

  unfoldable pub default_byte_read : ℕ → ℕ → Run W Received
  unfolding byte_loop
  default_byte_read flags len = byte_loop len 0 []
