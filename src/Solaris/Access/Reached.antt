-- ===== src/Solaris/Access/Reached.antt =====
-- What src/access_io.c reaches through the driver of solaris_io/iop.c.
use libieee.Common.{List, if◌then◌else◌, negsuc, pos, refl, some, ℕ, ℤ, ◌%◌, ◌==◌, ◌^◌, ◌∷◌, ◌≡◌}
use libieee.Port.Machine.{Machine}
use libieee.Port.Returns.{Returns, returns}
use libieee.Solaris.{IopBuf}
use libieee.Solaris.Access.{SolarisHost, raw_inb, raw_outb}
use libieee.Solaris.Driver.{Kernel, iopioctl}
use libieee.Solaris.Driver.Ports.{Serving, shown, written}

-- The system hands the requests on `fd` to the unit of the driver.
pub record HandsOn {W : Type 0} (system : SolarisHost W) (kernel : Kernel W) (fd : ℤ) (minor : ℕ)
    : Type 0 where
  pub handed :
      (cmd : ℕ) (buf buf' : IopBuf) (error : ℕ) (w w' : W)
      → iopioctl kernel minor cmd buf w ≡ some ((error, buf'), w')
      → system.iop_ioctl fd cmd buf w ≡ ((if error == 0 then pos 0 else negsuc 0, buf'), w')

module _ {W : Type 0} (system : SolarisHost W) (kernel : Kernel W) (minor : ℕ)
    {seen : W → List (ℕ × ℕ)} {level : W → ℕ → ℕ} (serving : Serving kernel minor seen level)
    (s : Machine W) (handed : HandsOn system kernel s.port.fd minor) where
  -- A byte that the library writes reaches the I/O port of that address, and no other byte does; and
  -- what the library reads is what the I/O port shows, whatever stood in its buffer, with nothing
  -- written. The port is left as it is. The driver is attached to the unit that the file is opened
  -- on, and the kernel can read and write the memory of the process.
  pub transfers-Reached :
      (val addr unwritten : ℕ)
      → Returns
          (λ _ t. (t.port ≡ s.port) × (seen t.world ≡ (addr % 2 ^ 32, val) ∷ seen s.world))
          (raw_outb system val addr s)
        × Returns
            (λ byte t.
              (byte ≡ level s.world (addr % 2 ^ 32) % 256)
              × (t.port ≡ s.port)
              × (seen t.world ≡ seen s.world))
            (raw_inb system unwritten addr s)
  unfolding raw_outb raw_inb
  transfers-Reached val addr unwritten =
      let (w', asked, sent) = written kernel minor serving (addr % 2 ^ 32) val s.world in
      let (w'', asked', kept) = shown kernel minor serving (addr % 2 ^ 32) unwritten s.world in
      (
        rw (handed.handed _ _ _ _ _ _ asked) (returns (refl, sent)),
        rw (handed.handed _ _ _ _ _ _ asked') (returns (refl, refl, kept)),
      )
