-- ===== src/Default/EcpWrite.antt =====
-- default_ecp_write_data and default_ecp_write_addr of src/default.c, which differ in the level of
-- HostAck (nAutoFd) alone.
pub mod Ends
pub mod Recovery
use libieee.Port.Control
use libieee.Port.Status
use libieee.Common.{
  Bool, List, [], false, if◌then◌else◌, meets, not, pos, suc, to_byte, true, truthy, zero, ℕ, ℤ,
  ◌+◌, ◌∪◌, ◌∷◌,
}
use libieee.Default.Link.{is_fwd_idle, set_phase, signal}
use libieee.Port.Clock.{Clock, udelay}
use libieee.Port.Machine.{Phase}
use libieee.Port.Methods.{Pins}
use libieee.Port.Run.{Run, gets, out_of_rounds, pure, ◌>>=◌, ◌>>◌}

module _ {W : Type 0} (clock : Clock W) (rounds : ℕ) (pin : Pins W) where
  -- The retries for event 36; the result is that of the jump to `success`.
  unfoldable pub await_busy : ℕ → Run W Bool
  await_busy zero = pure false
  await_busy (suc n) = do
    r ← pin.wait_status Status.busy Status.busy signal
    if truthy r then await_busy n else pure true

  -- Host Transfer Recovery. The result says whether the byte is tried again.
  unfoldable pub recover : Run W Bool
  recover = do
    pin.frob_control Control.ninit Control.ninit
    udelay clock rounds 50
    status ← pin.read_status
    pin.frob_control Control.ninit 0
    if meets (to_byte status) Status.perror then pure false else do
      udelay clock rounds 50
      status ← pin.read_status
      pure (meets (to_byte status) Status.perror)

  -- One byte from `try_again` on, with at most so many tries: did it reach `success`?
  unfoldable pub try_byte : ℕ → ℕ → Run W Bool
  unfolding await_busy recover
  try_byte zero byte = λ _. out_of_rounds
  try_byte (suc k) byte = do
    pin.write_data byte
    pin.frob_control Control.nstrobe 0
    udelay clock rounds 5
    success ← await_busy 100
    if success then pure true else do again ← recover; if again then try_byte k byte else pure false

  -- Event 37: nStrobe high, and the peripheral takes the byte. The result is that of the wait.
  unfoldable pub close_byte : Run W ℤ
  close_byte = do
    pin.frob_control Control.nstrobe Control.nstrobe
    udelay clock rounds 5
    pin.wait_status Status.busy 0 signal

  unfoldable pub ecp_write_loop : List ℕ → ℕ → Run W ℕ
  unfolding try_byte close_byte
  ecp_write_loop [] written = pure written
  ecp_write_loop (byte ∷ rest) written = do
    success ← try_byte rounds byte
    if not success
        then pure written
        else do r ← close_byte; if truthy r then pure written else ecp_write_loop rest (written + 1)

  -- The whole of either function; `host_ack` is the level of nAutoFd.
  unfoldable pub ecp_write : ℕ → Run W ℤ → List ℕ → Run W ℤ
  unfolding ecp_write_loop
  ecp_write host_ack ecp_rev_to_fwd buffer = do
    phase ← gets (λ p. p.current_phase)
    r ← if is_fwd_idle phase then pure (pos 0) else ecp_rev_to_fwd
    if truthy r then pure (pos 0) else do
      set_phase Phase.fwd_data
      pin.frob_control (Control.nautofd ∪ Control.ninit) (host_ack ∪ Control.ninit)
      written ← ecp_write_loop buffer 0
      set_phase Phase.fwd_idle
      pure (pos written)

  unfoldable pub default_ecp_write_data : Run W ℤ → ℕ → List ℕ → Run W ℤ
  unfolding ecp_write
  default_ecp_write_data ecp_rev_to_fwd flags buffer =
      ecp_write Control.nautofd ecp_rev_to_fwd buffer

  unfoldable pub default_ecp_write_addr : Run W ℤ → ℕ → List ℕ → Run W ℤ
  unfolding ecp_write
  default_ecp_write_addr ecp_rev_to_fwd flags buffer = ecp_write 0 ecp_rev_to_fwd buffer
