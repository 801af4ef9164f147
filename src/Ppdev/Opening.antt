-- ===== src/Ppdev/Opening.antt =====
-- init and cleanup of src/access_ppdev.c, the capabilities that it finds, and its claim.
pub mod Files
use libieee.Port.Cap
use libieee.Port.E1284
use libieee.Port.Mode
use libieee.Port.Transfer
use libieee.Common.{
  Bool, Option, false, if◌then◌else◌, is_minus_one, is_neg, meets, none, not, some, true, truthy, ℕ,
  ℤ, ◌∩◌, ◌∪◌, ◌⊖◌,
}
use libieee.Port.Host.{Host, Request}
use libieee.Port.Machine.{Table}
use libieee.Port.Run.{Run, ask, gets, map_caps, modify, pure, put, set_filename, skip, ◌>>=◌, ◌>>◌}
use libieee.Ppdev.Modes.{has_others}
use libieee.Ppdev.Parport.{has_dma, has_ecp, has_epp, has_pcspp, has_tristate}
use libieee.Ppdev.Pins.{ask_device}

-- The capabilities that the hardware's modes `m` add and take away.
unfoldable pub found_modes : (m c : ℕ) → ℕ
found_modes m c =
    let c = if meets m has_pcspp then c ∪ Cap.raw else c in
    let c = if meets m has_epp then c ∪ Cap.epp else c in
    let c = if meets m has_ecp then c ∪ (Cap.ecp ∪ Cap.ecprle) else c in
    let c = if meets m has_dma then c ∪ Cap.dma else c in
    if meets m has_tristate then c else c ⊖ (c ∩ (Cap.byte ∪ Cap.ecpswe))

abbrev pub guessed_modes : ℕ → ℕ
guessed_modes c = c ∪ (Cap.ecp ∪ Cap.ecprle ∪ Cap.epp)

module _ {W : Type 0} (host : Host W) where
  unfoldable pub find_capabilities : ℕ → Run W ℕ
  unfolding ask_device found_modes
  find_capabilities c = do
    (r, _) ← ask_device host Request.ppclaim
    if truthy r then pure (guessed_modes c) else do
      (r, m) ← ask_device host Request.ppgetmodes
      ask_device host Request.pprelease
      if truthy r then pure (guessed_modes c) else pure (found_modes m c)

  -- The open of the device, and of the other name that udev may have given it: is there a file?
  unfoldable pub open_device : Run W Bool
  open_device = do
    device ← gets (λ p. p.device)
    udevice ← gets (λ p. p.udevice)
    fd ← ask (host.open_file device)
    modify (λ p. record p { fd = fd })
    if is_neg fd
        then elim udevice [
          | none ↦ pure false
          | some name ↦ do
            fd ← ask (host.open_file name)
            modify (λ p. record p { fd = fd })
            if is_neg fd then pure false else do set_filename name; pure true
        ]
        else do set_filename device; pure true

  -- `ioctl (port->fd, PPEXCL)`, where the caller asks for it; the file is closed where it fails.
  unfoldable pub exclude : ℕ → Run W Bool
  unfolding ask_device
  exclude flags =
      if meets flags Transfer.excl
      then (do
        (r, _) ← ask_device host Request.ppexcl
        if truthy r
            then (do fd ← gets (λ p. p.fd); put (host.close_file fd); pure false)
            else pure true)
      else pure true

  -- From the test of the interrupt on.
  unfoldable pub report : Option ℕ → Run W (ℤ × Option ℕ)
  unfolding find_capabilities
  report capabilities = do
    interrupt ← gets (λ p. p.interrupt)
    if is_minus_one interrupt
        then modify (λ p. record p { fn = Table.ppdev_access_methods false })
        else skip
    let caps =
        if is_minus_one interrupt then capabilities else map_caps (λ c. c ∪ Cap.irq) capabilities
    elim caps [
      | none ↦ pure (E1284.ok, none)
      | some c ↦ do c ← find_capabilities c; pure (E1284.ok, some c)
    ]

  unfoldable pub init : ℕ → Option ℕ → Run W (ℤ × Option ℕ)
  unfolding open_device exclude report
  init flags capabilities =
      if has_others flags Transfer.excl then pure (E1284.notavail, capabilities) else do
        modify (λ p. record p { access_priv = record { nonblock = 0; current_flags = 0 } })
        opened ← open_device
        if not opened then pure (E1284.init, capabilities) else do
          modify (λ p. record p { current_mode = Mode.compat })
          exclusive ← exclude flags
          if not exclusive then pure (E1284.init, capabilities) else report capabilities

  unfoldable pub cleanup : Run W (Unit {0})
  cleanup = do fd ← gets (λ p. p.fd); if is_neg fd then skip else put (host.close_file fd)

  unfoldable pub claim : Run W ℤ
  unfolding ask_device
  claim = do
    (r, _) ← ask_device host Request.ppclaim
    pure (if truthy r then E1284.sys else E1284.ok)

  unfoldable pub release : Run W (Unit {0})
  unfolding ask_device
  release = do ask_device host Request.pprelease; skip
