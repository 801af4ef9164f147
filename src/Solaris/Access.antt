-- ===== src/Solaris/Access.antt =====
-- The branches for Solaris of src/access_io.c: the inputs and outputs, and the open and close of the
-- driver's device.
pub mod Reached
use libieee.Port.Capable
use libieee.Common.{
  Bool, [], false, if◌then◌else◌, is_neg, not, truthy, ℕ, ℤ, ◌%◌, ◌&&◌, ◌==◌, ◌^◌, ◌∷◌,
}
use libieee.Port.Machine.{Text}
use libieee.Port.Run.{Run, ask, gets, modify, pure, put, skip, ◌>>=◌, ◌>>◌}
use libieee.Solaris.{IopBuf, iop_read, iop_write}

-- "/devices/pseudo/iop@0:iop"
abbrev pub iop_name : Text
iop_name =
    b'/' ∷ b'd' ∷ b'e' ∷ b'v' ∷ b'i' ∷ b'c' ∷ b'e' ∷ b's' ∷ b'/' ∷ b'p' ∷ b's' ∷ b'e' ∷ b'u' ∷ b'd'
    ∷ b'o' ∷ b'/' ∷ b'i' ∷ b'o' ∷ b'p' ∷ b'@' ∷ b'0' ∷ b':' ∷ b'i' ∷ b'o' ∷ b'p' ∷ []

-- The system calls; `iop_ioctl` is ioctl with a buffer, which it may change.
pub record SolarisHost (W : Type 0) : Type 0 where
  pub open_file : Text → W → ℤ × W
  pub close_file : ℤ → W → W
  pub iop_ioctl : ℤ → ℕ → IopBuf → W → (ℤ × IopBuf) × W

module _ {W : Type 0} (system : SolarisHost W) where
  -- `unwritten` is what the byte of the buffer holds before.
  unfoldable pub raw_inb : (unwritten : ℕ) → ℕ → Run W ℕ
  raw_inb unwritten addr = do
    fd ← gets (λ p. p.fd)
    let tmpbuf : IopBuf = record { port = addr % 2 ^ 32; port_value = unwritten }
    (_, tmpbuf) ← ask (system.iop_ioctl fd iop_read tmpbuf)
    pure tmpbuf.port_value

  unfoldable pub raw_outb : ℕ → ℕ → Run W (Unit {0})
  raw_outb val addr = do
    fd ← gets (λ p. p.fd)
    ask (system.iop_ioctl fd iop_write (record { port = addr % 2 ^ 32; port_value = val }))
    skip

  -- The case of IO_CAPABLE in init: is the driver there?
  unfoldable pub open_iop : Run W Bool
  open_iop = do
    fd ← ask (system.open_file iop_name)
    modify (λ p. record p { fd = fd })
    if is_neg fd then pure false else do
      (r, _) ← ask (system.iop_ioctl fd iop_read (record { port = 0x80; port_value = 0xff }))
      pure (not (truthy r))

  unfoldable pub cleanup : Run W (Unit {0})
  cleanup = do
    type ← gets (λ p. p.type)
    fd ← gets (λ p. p.fd)
    if not (type == Capable.io) && not (is_neg fd) then put (system.close_file fd) else skip
    if not (is_neg fd) then put (system.close_file fd) else skip
