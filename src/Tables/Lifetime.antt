-- ===== src/Tables/Lifetime.antt =====
-- What init and cleanup of the tables leave of a port: its open, its count and its memory.
use libieee.Port.Capable
use libieee.Port.E1284
use libieee.Port.Mode
use libieee.Ppdev.Opening
use libieee.Port.Returns
use libieee.Port.Transfer
use libieee.Common.{
  Option, ap, is_minus_one, is_neg, meets, none, not, refl, some, true, truthy, ℕ, ℤ, ◌∙◌, ◌≡◌,
}
use libieee.Io.Opened.{io_cleanup-Stands, io_init-Stands}
use libieee.Port.Host.{Host, Request}
use libieee.Port.Life.{Available, Lasts, LifetimeKept, Standing, Stands, lasts}
use libieee.Port.Machine.{Machine, Table}
use libieee.Port.Methods.{Methods}
use libieee.Port.Returns.{Returns, returns}
use libieee.Port.Run.{Run, if_present, pure, ◌>>=◌}
use libieee.Ppdev.Modes.{has_others}
use libieee.Ppdev.Opening.{exclude, find_capabilities, open_device, report}
use libieee.Ppdev.Pins.{ask_device}
use libieee.State.Allowed.{InitTyped}
use libieee.Tables.{access_methods}

module _ {W : Type 0} (host : Host W) where
  find_capabilities-Stands : (c : ℕ) (s : Machine W) → Stands s (find_capabilities host c s)
  unfolding find_capabilities ask_device
  find_capabilities-Stands c s =
      let claimed = host.ioctl s.port.fd Request.ppclaim s.world in
      let asked = host.ioctl s.port.fd Request.ppgetmodes claimed.1 in
      Returns.branch (truthy claimed.0.0) _ _ _ (λ _. returns refl)
        λ _. Returns.branch (truthy asked.0.0) _ _ _ (λ _. returns refl) λ _. returns refl

  open_device-Stands : (s : Machine W) → Stands s (open_device host s)
  unfolding open_device
  open_device-Stands s =
      Returns.branch (is_neg (host.open_file s.port.device s.world).0) _ _ _
        (λ _. Returns.optional s.port.udevice _ _ _ (returns refl) λ name.
          Returns.branch (is_neg (host.open_file name _).0) _ _ _ (λ _. returns refl)
            λ _. returns refl)
        λ _. returns refl

  exclude-Stands : (flags : ℕ) (s : Machine W) → Stands s (exclude host flags s)
  unfolding exclude ask_device
  exclude-Stands flags s =
      Returns.branch (meets flags Transfer.excl) _ _ s
        (λ _.
          Returns.branch (truthy (host.ioctl s.port.fd Request.ppexcl s.world).0.0) _ _ _
            (λ _. returns refl) λ _. returns refl)
        λ _. returns refl

  found-Stands :
      (caps : Option ℕ) (s : Machine W)
      → Stands s (
          (elim caps as (λ _. Run W (ℤ × Option ℕ)) [
            | none ↦ pure (E1284.ok, none)
            | some c ↦ do c ← find_capabilities host c; pure (E1284.ok, some c)
          ])
            s)
  found-Stands none s = returns refl
  found-Stands (some c) s = Returns.bind (find_capabilities-Stands c s) λ c t e. returns e

  report-Stands : (caps : Option ℕ) (s : Machine W) → Stands s (report host caps s)
  unfolding report
  report-Stands caps s =
      Returns.branch' (is_minus_one s.port.interrupt) _ _ s _ (λ _. found-Stands _ _)
        λ _. found-Stands _ _

  init-Stands :
      (flags : ℕ) (caps : Option ℕ) (s : Machine W) → Stands s (Opening.init host flags caps s)
  unfolding Opening.init
  init-Stands flags caps s =
      Returns.branch (has_others flags Transfer.excl) _ _ s (λ _. returns refl)
        λ _.
          let fresh_priv : Machine W = record s {
            port = record (s.port) { access_priv = record { nonblock = 0; current_flags = 0 } };
          } in
          Returns.bind (open_device-Stands fresh_priv) λ opened t e.
            Returns.branch (not opened) _ _ t (λ _. returns e)
              λ _.
                Returns.bind
                  (exclude-Stands flags
                    (record t { port = record (t.port) { current_mode = Mode.compat } }))
                  λ exclusive u f.
                    Returns.branch (not exclusive) _ _ u (λ _. returns (f ∙ e))
                      λ _. Returns.mono (report-Stands caps u) λ _ v g. g ∙ f ∙ e

  cleanup-Stands : (s : Machine W) → Stands s (Opening.cleanup host s)
  unfolding Opening.cleanup
  cleanup-Stands s = Returns.branch (is_neg s.port.fd) _ _ s (λ _. returns refl) λ _. returns refl

module _ {W : Type 0} (host : Host W) (rounds : ℕ) (lpt_methods : Methods W) (capabilities : ℕ)
    (lpt_init : meets capabilities Capable.lpt ≡ true
      → (flags : ℕ) (caps : Option ℕ) (s : Machine W)
      → Stands s (lpt_methods.init flags caps s)) where
  init-Stands_of :
      (table : Table)
      → Available capabilities table
      → (s : Machine W) (flags : ℕ) (caps : Option ℕ)
      → Stands s ((access_methods host rounds lpt_methods table).init flags caps s)
  init-Stands_of Table.zeroed filled s flags caps = absurd filled
  init-Stands_of (Table.ppdev_access_methods own_nack) filled s flags caps =
      init-Stands host flags caps s
  init-Stands_of (Table.io_access_methods file_io) filled s flags caps =
      io_init-Stands host flags caps s
  init-Stands_of Table.lpt_access_methods filled s flags caps = lpt_init filled flags caps s

  -- The tables of ppdev devices and of port I/O leave the type of the port alone, on any host, and
  -- so do the tables together if the one for NT does.
  pub access_methods-InitTyped : InitTyped (access_methods host rounds lpt_methods) capabilities
  access_methods-InitTyped table filled s flags caps =
      Returns.mono (init-Stands_of table filled s flags caps)
        λ _ t e. ap (λ (x : Standing). x.type) e

  -- And they leave the count alone.
  pub access_methods-LifetimeKept :
      ((s : Machine W) → Lasts s (if_present lpt_methods.cleanup s))
      → LifetimeKept (access_methods host rounds lpt_methods) capabilities
  access_methods-LifetimeKept lpt_cleanup = record {
    init = λ table filled s flags caps. lasts s (init-Stands_of table filled s flags caps);
    cleanup = cleanup_of;
  }
    where
      cleanup_of :
          (table : Table) (s : Machine W)
          → Lasts s (if_present (access_methods host rounds lpt_methods table).cleanup s)
      cleanup_of Table.zeroed s = returns refl
      cleanup_of (Table.ppdev_access_methods own_nack) s = lasts s (cleanup-Stands host s)
      cleanup_of (Table.io_access_methods file_io) s = lasts s (io_cleanup-Stands host s)
      cleanup_of Table.lpt_access_methods s = lpt_cleanup s
