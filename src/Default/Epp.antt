-- ===== src/Default/Epp.antt =====
-- default_epp_read_data and default_epp_write_data of src/default.c, and the two address
-- operations that are not implemented there.
use libieee.Port.Control
use libieee.Port.E1284
use libieee.Port.Status
use libieee.Common.{
  List, [], if◌then◌else◌, pos, suc, to_byte, truthy, zero, ℕ, ℤ, ◌++◌, ◌+◌, ◌∪◌, ◌∷◌,
}
use libieee.Default.Link.{signal}
use libieee.Default.Poll.{poll_port}
use libieee.Port.Clock.{Clock}
use libieee.Port.Methods.{Pins, Received}
use libieee.Port.Run.{Run, call, call_with, pure, ◌>>=◌, ◌>>◌}

abbrev lines : ℕ
lines = Control.nstrobe ∪ Control.nautofd ∪ Control.nselectin ∪ Control.ninit

module _ {W : Type 0} (clock : Clock W) (rounds : ℕ) (pin : Pins W) where
  -- The for loop of default_epp_read_data, with `n` bytes of the buffer left.
  unfoldable pub epp_read_loop : ℕ → ℕ → List ℕ → Run W Received
  epp_read_loop zero count stored = pure (pos count, stored)
  epp_read_loop (suc n) count stored = do
    pin.frob_control Control.nautofd 0
    r ← pin.wait_status Status.busy Status.busy signal
    if truthy r then pure (pos count, stored) else do
      reg ← call pin.read_data
      pin.frob_control Control.nautofd Control.nautofd
      r ← pin.wait_status Status.busy 0 signal
      if truthy r
          then pure (pos count, stored ++ to_byte reg ∷ [])
          else epp_read_loop n (count + 1) (stored ++ to_byte reg ∷ [])

  unfoldable pub default_epp_read_data : ℕ → ℕ → Run W Received
  unfolding epp_read_loop
  default_epp_read_data flags len = do
    pin.frob_control lines (Control.nstrobe ∪ Control.ninit)
    call_with pin.data_dir 1
    got ← epp_read_loop len 0 []
    call_with pin.data_dir 0
    pure got

  -- The for loop of default_epp_write_data; `ret` bytes are written.
  unfoldable pub epp_write_loop : List ℕ → ℕ → Run W ℤ
  epp_write_loop [] ret = pure (pos ret)
  epp_write_loop (byte ∷ rest) ret = do
    pin.write_data byte
    pin.frob_control Control.nautofd 0
    r ← poll_port clock pin rounds Status.busy Status.busy 10
    if truthy r then pure (pos ret) else do
      pin.frob_control Control.nautofd Control.nautofd
      r ← poll_port clock pin rounds Status.busy 0 5
      if truthy r then pure (pos ret) else epp_write_loop rest (ret + 1)

  unfoldable pub default_epp_write_data : ℕ → List ℕ → Run W ℤ
  unfolding epp_write_loop
  default_epp_write_data flags buffer = do
    pin.frob_control lines (Control.nautofd ∪ Control.nselectin ∪ Control.ninit)
    call_with pin.data_dir 0
    epp_write_loop buffer 0

abbrev pub default_epp_read_addr : {W : Type 0} → ℕ → ℕ → Run W Received
default_epp_read_addr flags len = pure (E1284.notimpl, [])

abbrev pub default_epp_write_addr : {W : Type 0} → ℕ → List ℕ → Run W ℤ
default_epp_write_addr flags buffer = pure E1284.notimpl
