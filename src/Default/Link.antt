-- ===== src/Default/Link.antt =====
-- Negotiation, termination and the direction of an ECP link: default_negotiate,
-- default_terminate, default_ecp_fwd_to_rev and default_ecp_rev_to_fwd of src/default.c.
pub mod Session
pub mod Peripheral
use libieee.Port.Control
use libieee.Port.E1284
use libieee.Port.Mode
use libieee.Port.Status
use libieee.Common.{
  Bool, false, if◌then◌else◌, meets, not, to_byte, true, truthy, ℕ, ℤ, ◌%◌, ◌==◌, ◌||◌, ◌∩◌, ◌∪◌,
}
use libieee.Port.Clock.{
  Clock, TimeVal, delay, lookup_delay, timeval_signal_timeout, timeval_strobe_delay, udelay,
}
use libieee.Port.Machine.{Phase}
use libieee.Port.Methods.{Pins}
use libieee.Port.Run.{Run, call_with, gets, modify, pure, skip, ◌>>=◌, ◌>>◌}

abbrev pub signal : TimeVal
signal = lookup_delay timeval_signal_timeout

abbrev pub set_mode : {W : Type 0} → ℕ → Run W (Unit {0})
set_mode mode = modify (λ p. record p { current_mode = mode })

abbrev pub set_phase : {W : Type 0} → Phase → Run W (Unit {0})
set_phase phase = modify (λ p. record p { current_phase = phase })

-- `port->current_phase == PH1284_REV_IDLE`, and the same for PH1284_FWD_IDLE.
abbrev pub is_rev_idle : Phase → Bool
is_rev_idle Phase.rev_idle = true
is_rev_idle _ = false

abbrev pub is_fwd_idle : Phase → Bool
is_fwd_idle Phase.fwd_idle = true
is_fwd_idle _ = false

-- The extensibility request for a mode: the variable `m` of default_negotiate.
unfoldable pub request : ℕ → ℕ
request mode =
    if meets mode Mode.flag_ext_link
    then 0x80
    else if mode == Mode.ecpswe
    then Mode.ecp
    else if mode == Mode.eppsl || mode == Mode.eppswe
    then Mode.epp
    else if mode == Mode.becp
    then 0x18
    else mode

module _ {W : Type 0} (pin : Pins W) where
  unfoldable pub default_ecp_fwd_to_rev : Clock W → ℕ → Run W ℤ
  default_ecp_fwd_to_rev clock rounds = do
    pin.frob_control Control.nautofd 0
    call_with pin.data_dir 1
    udelay clock rounds 5
    pin.frob_control Control.ninit 0
    retval ← pin.wait_status Status.perror 0 signal
    set_phase (if truthy retval then Phase.ecp_dir_unknown else Phase.rev_idle)
    pure retval

  unfoldable pub default_ecp_rev_to_fwd : Run W ℤ
  default_ecp_rev_to_fwd = do
    pin.frob_control (Control.ninit ∪ Control.nautofd) (Control.ninit ∪ Control.nautofd)
    retval ← pin.wait_status Status.perror Status.perror signal
    if truthy retval
        then set_phase Phase.ecp_dir_unknown
        else do call_with pin.data_dir 0; set_phase Phase.fwd_idle
    pure retval

  -- The three writes to the control lines, each after the first on condition of the handshake.
  unfoldable pub finish_termination : Run W (Unit {0})
  finish_termination = do
    r ← pin.wait_status Status.nack 0 signal
    if truthy r then skip else do
      pin.write_control (Control.ninit ∪ Control.nstrobe)
      r ← pin.wait_status Status.nack Status.nack signal
      if truthy r
          then skip
          else pin.write_control (Control.ninit ∪ Control.nautofd ∪ Control.nstrobe)

  unfoldable pub default_terminate : Run W ℤ → Run W (Unit {0})
  unfolding finish_termination
  default_terminate ecp_rev_to_fwd = do
    phase ← gets (λ p. p.current_phase)
    if is_rev_idle phase then ecp_rev_to_fwd >>= (λ _. skip) else skip
    pin.write_control (Control.ninit ∪ Control.nautofd ∪ Control.nstrobe)
    set_mode Mode.compat
    finish_termination

  -- default_negotiate from the label `abort` on.
  unfoldable pub abort : Run W (Unit {0}) → ℤ → Run W ℤ
  abort terminate ret = do terminate; pure ret

  -- Events 30 and 31, for a request with the ECP bit.
  unfoldable pub set_up_ecp : Run W (Unit {0}) → Run W ℤ
  unfolding abort
  set_up_ecp terminate = do
    pin.frob_control Control.nautofd 0
    r ← pin.wait_status Status.perror Status.perror signal
    if truthy r then abort terminate E1284.negfailed else do
      modify (λ p. record p { current_channel = 0; current_phase = Phase.fwd_idle })
      pure E1284.ok

  -- Event 5 and what follows: the peripheral's answer to the request `m`.
  unfoldable pub answer : Run W (Unit {0}) → ℕ → ℕ → Run W ℤ
  unfolding abort set_up_ecp
  answer terminate mode m = do
    set_mode (if mode == 0 then 1 else 0)
    status ← pin.read_status
    if not (to_byte status ∩ Status.select == (if mode == 0 then 0 else Status.select))
        then abort terminate E1284.rejected
        else do set_mode mode; if meets m Mode.ecp then set_up_ecp terminate else pure E1284.ok

  -- Events 0 to 6: the request `m` on the data lines, and its handshake.
  unfoldable pub handshake : Clock W → Run W (Unit {0}) → ℕ → ℕ → Run W ℤ
  unfolding abort answer
  handshake clock terminate mode m = do
    pin.write_data (m % 256)
    pin.frob_control (Control.nselectin ∪ Control.nstrobe ∪ Control.ninit ∪ Control.nautofd)
        (Control.nselectin ∪ Control.nstrobe ∪ Control.ninit)
    r ←
        pin.wait_status (Status.perror ∪ Status.select ∪ Status.nfault ∪ Status.nack)
          (Status.perror ∪ Status.select ∪ Status.nfault) signal
    if truthy r then abort terminate E1284.negfailed else do
      pin.frob_control Control.nstrobe 0
      delay clock timeval_strobe_delay
      pin.frob_control (Control.nstrobe ∪ Control.nautofd) (Control.nstrobe ∪ Control.nautofd)
      r ← pin.wait_status Status.nack Status.nack signal
      if truthy r then abort terminate E1284.negfailed else answer terminate mode m

  unfoldable pub default_negotiate : Clock W → Run W (Unit {0}) → ℕ → Run W ℤ
  unfolding handshake request
  default_negotiate clock terminate mode = do
    current ← gets (λ p. p.current_mode)
    if mode == current
        then pure E1284.ok
        else if mode == Mode.compat
        then abort terminate E1284.ok
        else handshake clock terminate mode (request mode)
