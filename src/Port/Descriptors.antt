-- ===== src/Port/Descriptors.antt =====
-- The open files of a world, and which of them a port holds.
use libieee.Port.Capable
use libieee.Common.{
  Bool, List, Option, false, if◌then◌else◌, is_neg, true, truthy, ℕ, ℤ, ◌==◌, ◌∷◌, ◌≡◌, ◌⊎◌,
}
use libieee.Port.Host.{Host, Request}
use libieee.Port.Machine.{Machine, Table, Text}

-- What the calls of the system do to the open files, the last one opened first.
pub record HostFiles {W : Type 0} (host : Host W) (files : W → List ℤ) : Type 0 where
  pub opens :
      (name : Text) (w : W)
      → files (host.open_file name w).1 ≡ (
          if is_neg (host.open_file name w).0 then files w else (host.open_file name w).0 ∷ files w)
  pub closes :
      (fd : ℤ) (rest : List ℤ) (w : W) → files w ≡ fd ∷ rest → files (host.close_file fd w) ≡ rest
  pub ioctl : (fd : ℤ) (request : Request) (w : W) → files (host.ioctl fd request w).1 ≡ files w
  pub ioperm : (from num on : ℕ) (w : W) → files (host.ioperm from num on w).1 ≡ files w

module _ {W : Type 0} (files : W → List ℤ) where
  -- An open port holds the file of its device, unless it goes by I/O instructions; the files in
  -- `others` are not its own.
  pub data HasFile (others : List ℤ) (s : Machine W) : Type 0 where
    device_open :
        (own_nack : Bool)
        → s.port.fn ≡ Table.ppdev_access_methods own_nack
        → is_neg s.port.fd ≡ false
        → files s.world ≡ s.port.fd ∷ others
        → HasFile others s
    dev_port_open :
        (file_io : Bool)
        → s.port.fn ≡ Table.io_access_methods file_io
        → (s.port.type == Capable.io) ≡ false
        → is_neg s.port.fd ≡ false
        → files s.world ≡ s.port.fd ∷ others
        → HasFile others s
    no_file_open :
        (file_io : Bool)
        → s.port.fn ≡ Table.io_access_methods file_io
        → (s.port.type == Capable.io) ≡ true
        → files s.world ≡ others
        → HasFile others s

  -- What a try of an access method leaves.
  abbrev pub Tried : List ℤ → ℤ × Option ℕ → Machine W → Type 0
  Tried others r t =
      ((truthy r.0 ≡ false) × HasFile others t) ⊎ ((truthy r.0 ≡ true) × (files t.world ≡ others))
