-- ===== src/Ppdev/Blocks.antt =====
-- The block transfers of src/access_ppdev.c, which the device does, and its table of methods.
pub mod Timeouts
use libieee.Port.Mode
use libieee.Ppdev.Modes
use libieee.Common.{Bool, List, [], if◌then◌else◌, some, truthy, ℕ, ℤ}
use libieee.Default.EcpRead.{default_ecp_read_addr}
use libieee.Default.Link.{default_ecp_fwd_to_rev, default_ecp_rev_to_fwd}
use libieee.Default.Poll.{default_do_nack_handshake, default_wait_data}
use libieee.Port.Clock.{TimeVal}
use libieee.Port.Host.{Host}
use libieee.Port.Methods.{Methods, Received}
use libieee.Port.Run.{Run, ask, gets, pure, put, ◌>>=◌, ◌>>◌}
use libieee.Ppdev.Modes.{do_nonblock, negotiate, set_mode, translate_error_code}
use libieee.Ppdev.Opening.{claim, cleanup, init, release}
use libieee.Ppdev.Pins.{clear_irq, do_nack_handshake, get_irq_fd, ppdev_pins}

module _ {W : Type 0} (host : Host W) where
  -- What every transfer does before its system call.
  unfoldable pub prepare : (mode flags mode_flags addr : ℕ) → Run W ℤ
  unfolding do_nonblock set_mode
  prepare mode flags mode_flags addr = do
    ret ← do_nonblock host flags
    if truthy ret then pure ret else set_mode host mode mode_flags addr

  unfoldable pub block_read : (mode flags mode_flags addr len : ℕ) → Run W Received
  unfolding prepare translate_error_code
  block_read mode flags mode_flags addr len = do
    ret ← prepare mode flags mode_flags addr
    if truthy ret then pure (ret, []) else do
      fd ← gets (λ p. p.fd)
      (r, bytes) ← ask (host.read fd len)
      pure (translate_error_code host r, bytes)

  unfoldable pub block_write : (mode flags mode_flags addr : ℕ) → List ℕ → Run W ℤ
  unfolding prepare translate_error_code
  block_write mode flags mode_flags addr buffer = do
    ret ← prepare mode flags mode_flags addr
    if truthy ret then pure ret else do
      fd ← gets (λ p. p.fd)
      r ← ask (host.write fd buffer)
      pure (translate_error_code host r)

  abbrev pub nibble_read : ℕ → ℕ → Run W Received
  nibble_read flags len = block_read Mode.nibble flags 0 0 len

  abbrev pub compat_write : ℕ → List ℕ → Run W ℤ
  compat_write flags buffer = block_write Mode.compat flags 0 0 buffer

  abbrev pub byte_read : ℕ → ℕ → Run W Received
  byte_read flags len = block_read Mode.byte flags 0 0 len

  abbrev pub epp_read_data : ℕ → ℕ → Run W Received
  epp_read_data flags len = block_read Mode.epp flags flags 0 len

  abbrev pub epp_write_data : ℕ → List ℕ → Run W ℤ
  epp_write_data flags buffer = block_write Mode.epp flags flags 0 buffer

  abbrev pub epp_read_addr : ℕ → ℕ → Run W Received
  epp_read_addr flags len = block_read Mode.epp flags flags 1 len

  abbrev pub epp_write_addr : ℕ → List ℕ → Run W ℤ
  epp_write_addr flags buffer = block_write Mode.epp flags flags 1 buffer

  abbrev pub ecp_read_data : ℕ → ℕ → Run W Received
  ecp_read_data flags len = block_read Mode.ecp flags flags 0 len

  abbrev pub ecp_write_data : ℕ → List ℕ → Run W ℤ
  ecp_write_data flags buffer = block_write Mode.ecp flags flags 0 buffer

  abbrev pub ecp_write_addr : ℕ → List ℕ → Run W ℤ
  ecp_write_addr flags buffer = block_write Mode.ecp flags flags 1 buffer

  unfoldable pub set_timeout : TimeVal → Run W TimeVal
  set_timeout timeout = do
    fd ← gets (λ p. p.fd)
    old ← ask (host.gettime fd)
    put (host.settime fd timeout)
    pure old

  -- ppdev_access_methods; `own_nack` is the choice that init makes for do_nack_handshake.
  abbrev pub ppdev_access_methods : ℕ → Bool → Methods W
  ppdev_access_methods rounds own_nack =
      let pin = ppdev_pins host rounds in
      record {
        init = init host;
        cleanup = some (cleanup host);
        claim = some (claim host);
        release = some (release host);
        get_irq_fd = some (get_irq_fd host);
        clear_irq = some (clear_irq host);
        pins = pin;
        wait_data = default_wait_data host.clock pin rounds;
        do_nack_handshake = if own_nack then do_nack_handshake host else default_do_nack_handshake;
        negotiate = negotiate host;
        terminate = Modes.terminate host;
        ecp_fwd_to_rev = default_ecp_fwd_to_rev pin host.clock rounds;
        ecp_rev_to_fwd = default_ecp_rev_to_fwd pin;
        nibble_read = nibble_read;
        compat_write = compat_write;
        byte_read = byte_read;
        epp_read_data = epp_read_data;
        epp_write_data = epp_write_data;
        epp_read_addr = epp_read_addr;
        epp_write_addr = epp_write_addr;
        ecp_read_data = ecp_read_data;
        ecp_write_data = ecp_write_data;
        ecp_read_addr = default_ecp_read_addr;
        ecp_write_addr = ecp_write_addr;
        set_timeout = set_timeout;
      }
