-- ===== src/Io/Opened.antt =====
-- What init and cleanup of src/access_io.c leave of a port: its open, its count and its memory.
use libieee.Port.Capable
use libieee.Port.Returns
use libieee.Common.{Option, is_neg, not, refl, truthy, ℕ, ◌&&◌, ◌==◌, ◌≡◌}
use libieee.Io.{cleanup, dev_port_name, fd_open, get_permission, init, open_dev_port}
use libieee.Port.Host.{Host}
use libieee.Port.Life.{Stands, Usable, standing}
use libieee.Port.Machine.{Machine}
use libieee.Port.Returns.{Returns, returns}

module _ {W : Type 0} (host : Host W) where
  get_permission-Stands : (s : Machine W) → Stands s (get_permission host s)
  unfolding get_permission
  get_permission-Stands s =
      Returns.branch (truthy (host.ioperm s.port.base 3 1 s.world).0) _ _ _ (λ _. returns refl)
        λ _. returns refl

  open_dev_port-Stands : (s : Machine W) → Stands s (open_dev_port host s)
  unfolding open_dev_port
  open_dev_port-Stands s =
      Returns.branch (is_neg (host.open_file dev_port_name s.world).0) _ _ _ (λ _. returns refl)
        λ _. returns refl

  pub io_init-Stands :
      (flags : ℕ) (caps : Option ℕ) (s : Machine W) → Stands s (init host flags caps s)
  unfolding init
  io_init-Stands flags caps s =
      Returns.branch (not (flags == 0)) _ _ s (λ _. returns refl)
        λ _.
          Returns.bind {P = λ _ t. standing t ≡ standing s}
            (Returns.branch (s.port.type == Capable.io) _ _ s (λ _. get_permission-Stands s)
              λ _.
                Returns.branch (s.port.type == Capable.dev_port) _ _ s (λ _. open_dev_port-Stands s)
                  λ _. returns refl)
            λ ready t e. Returns.branch ready _ _ t (λ _. returns e) λ _. returns e

  pub io_cleanup-Stands : (s : Machine W) → Stands s (cleanup host s)
  unfolding cleanup
  io_cleanup-Stands s =
      Returns.branch (not (s.port.type == Capable.io) && fd_open s.port.fd) _ _ s
        (λ _. returns refl) λ _. returns refl

  -- The table that init leaves in the port: the one that was there, or that for /dev/port.
  get_permission-Usable :
      (capabilities : ℕ) (s : Machine W)
      → Usable capabilities s.port.fn
      → Returns (λ _ t. Usable capabilities t.port.fn) (get_permission host s)
  unfolding get_permission
  get_permission-Usable capabilities s usable =
      Returns.branch (truthy (host.ioperm s.port.base 3 1 s.world).0) _ _ _ (λ _. returns usable)
        λ _. returns usable

  open_dev_port-Usable :
      (capabilities : ℕ) (s : Machine W)
      → Usable capabilities s.port.fn
      → Returns (λ _ t. Usable capabilities t.port.fn) (open_dev_port host s)
  unfolding open_dev_port
  open_dev_port-Usable capabilities s usable =
      Returns.branch (is_neg (host.open_file dev_port_name s.world).0) _ _ _ (λ _. returns usable)
        λ _. returns tt

  pub io_init-Usable :
      (capabilities flags : ℕ) (caps : Option ℕ) (s : Machine W)
      → Usable capabilities s.port.fn
      → Returns (λ _ t. Usable capabilities t.port.fn) (init host flags caps s)
  unfolding init
  io_init-Usable capabilities flags caps s usable =
      Returns.branch (not (flags == 0)) _ _ s (λ _. returns usable)
        λ _.
          Returns.bind {P = λ _ t. Usable capabilities t.port.fn}
            (Returns.branch (s.port.type == Capable.io) _ _ s
              (λ _. get_permission-Usable capabilities s usable)
              λ _.
                Returns.branch (s.port.type == Capable.dev_port) _ _ s
                  (λ _. open_dev_port-Usable capabilities s usable) λ _. returns usable)
            λ ready t e. Returns.branch ready _ _ t (λ _. returns e) λ _. returns e
