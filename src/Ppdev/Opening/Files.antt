-- ===== src/Ppdev/Opening/Files.antt =====
-- The files that init and cleanup of src/access_ppdev.c open and close.
use libieee.Port.E1284
use libieee.Port.Returns
use libieee.Port.Transfer
use libieee.Common.{
  Bool, List, Option, ap, false, inl, inr, is_minus_one, is_neg, meets, none, not, refl, some, sym,
  true, truthy, ℕ, ℤ, ◌∙◌, ◌∷◌, ◌≡◌, ◌⊎◌,
}
use libieee.Port.Descriptors.{HostFiles, Tried, device_open}
use libieee.Port.Host.{Host, Request}
use libieee.Port.Machine.{Machine, Port, Table}
use libieee.Port.Returns.{Returns, returns}
use libieee.Port.Run.{Run, pure, ◌>>=◌}
use libieee.Ppdev.Modes.{has_others}
use libieee.Ppdev.Opening.{cleanup, exclude, find_capabilities, init, open_device, report}
use libieee.Ppdev.Pins.{ask_device}

module _ {W : Type 0} (host : Host W) {files : W → List ℤ} (laws : HostFiles host files) where
  find_capabilities-files :
      (c : ℕ) (s : Machine W)
      → Returns
          (λ _ t. (t.port ≡ s.port) × (files t.world ≡ files s.world))
          (find_capabilities host c s)
  unfolding find_capabilities ask_device
  find_capabilities-files c s =
      let claimed = host.ioctl s.port.fd Request.ppclaim s.world in
      let asked = host.ioctl s.port.fd Request.ppgetmodes claimed.1 in
      let released = host.ioctl s.port.fd Request.pprelease asked.1 in
      let kept : files released.1 ≡ files s.world =
        laws.ioctl _ _ asked.1 ∙ (laws.ioctl _ _ claimed.1 ∙ laws.ioctl _ _ s.world) in
      Returns.branch (truthy claimed.0.0) _ _ _ (λ _. returns (refl, laws.ioctl _ _ s.world))
        λ _.
          Returns.branch (truthy asked.0.0) _ _ _ (λ _. returns (refl, kept))
            λ _. returns (refl, kept)

  -- One file has been opened, or none.
  open_device-files :
      (s : Machine W)
      → Returns
          (λ opened t.
            (t.port.fn ≡ s.port.fn)
            × (((opened ≡ true)
                  × (is_neg t.port.fd ≡ false)
                  × (files t.world ≡ t.port.fd ∷ files s.world))
                ⊎ ((opened ≡ false) × (files t.world ≡ files s.world))))
          (open_device host s)
  unfolding open_device
  open_device-files s =
      let first = host.open_file s.port.device s.world in
      Returns.branch (is_neg first.0) _ _ _
        (λ e.
          let kept : files first.1 ≡ files s.world = laws.opens s.port.device s.world ∙ rw e refl in
          Returns.optional s.port.udevice _ _ _ (returns (refl, inr (refl, kept))) λ name.
            Returns.branch (is_neg (host.open_file name first.1).0) _ _ _
              (λ f. returns (refl, inr (refl, laws.opens name first.1 ∙ (rw f kept))))
              λ f. returns (
                refl,
                inl (
                  refl,
                  f,
                  laws.opens name first.1 ∙ rw f (ap (◌∷◌ (host.open_file name first.1).0) kept),
                ),
              ))
        λ e. returns (refl, inl (refl, e, laws.opens s.port.device s.world ∙ rw e refl))

  -- The file is still there, or it has been closed.
  exclude-files :
      (flags : ℕ) (others : List ℤ) (s : Machine W)
      → files s.world ≡ s.port.fd ∷ others
      → Returns
          (λ exclusive t.
            (t.port ≡ s.port)
            × (((exclusive ≡ true) × (files t.world ≡ s.port.fd ∷ others))
                ⊎ ((exclusive ≡ false) × (files t.world ≡ others))))
          (exclude host flags s)
  unfolding exclude ask_device
  exclude-files flags others s f =
      let asked = host.ioctl s.port.fd Request.ppexcl s.world in
      let kept : files asked.1 ≡ s.port.fd ∷ others = laws.ioctl _ _ s.world ∙ f in
      Returns.branch (meets flags Transfer.excl) _ _ s
        (λ _.
          Returns.branch (truthy asked.0.0) _ _ _
            (λ _. returns (refl, inr (refl, laws.closes _ _ _ kept)))
            λ _. returns (refl, inl (refl, kept)))
        λ _. returns (refl, inl (refl, f))

  -- A port that goes by ppdev, with its file open.
  abbrev ByPpdev : List ℤ → Machine W → Type 0
  ByPpdev others t =
      ((own_nack : Bool) × (t.port.fn ≡ Table.ppdev_access_methods own_nack))
      × (is_neg t.port.fd ≡ false)
      × (files t.world ≡ t.port.fd ∷ others)

  found-files :
      (others : List ℤ) (caps : Option ℕ) (s : Machine W)
      → ByPpdev others s
      → Returns (Tried files others) (
          (elim caps as (λ _. Run W (ℤ × Option ℕ)) [
            | none ↦ pure (E1284.ok, none)
            | some c ↦ do c ← find_capabilities host c; pure (E1284.ok, some c)
          ])
            s)
  found-files others none s (fn, fd, f) = returns (inl (refl, device_open fn.0 fn.1 fd f))
  found-files others (some c) s (fn, fd, f) = Returns.bind (find_capabilities-files c s) λ c t e.
      returns (
        inl (
          refl,
          device_open fn.0 (ap (λ (p : Port). p.fn) e.0 ∙ fn.1)
              (ap (λ (p : Port). is_neg p.fd) e.0 ∙ fd)
              (e.1 ∙ (f ∙ ap (λ (p : Port). p.fd ∷ others) (sym e.0))),
        ))

  report-files :
      (others : List ℤ) (caps : Option ℕ) (s : Machine W)
      → ByPpdev others s
      → Returns (Tried files others) (report host caps s)
  unfolding report
  report-files others caps s (fn, fd, f) =
      Returns.branch' (is_minus_one s.port.interrupt) _ _ s _
        (λ _. found-files others _ _ ((false, refl), fd, f)) λ _. found-files others _ _ (fn, fd, f)

  pub ppdev_init-Tried :
      (own_nack : Bool) (flags : ℕ) (caps : Option ℕ) (s : Machine W)
      → s.port.fn ≡ Table.ppdev_access_methods own_nack
      → Returns (Tried files (files s.world)) (init host flags caps s)
  unfolding init
  ppdev_init-Tried own_nack flags caps s filled =
      Returns.branch (has_others flags Transfer.excl) _ _ s (λ _. returns (inr (refl, refl)))
        λ _.
          let fresh_priv : Machine W = record s {
            port = record (s.port) { access_priv = record { nonblock = 0; current_flags = 0 } };
          } in
          Returns.bind (open_device-files fresh_priv) λ opened t (fn, e).
            Returns.branch (not opened) _ _ t
              (λ shut. elim e [
                | inl (is_open, _, _) ↦ absurd (cc)
                | inr (_, f) ↦ returns (inr (refl, f))
              ])
              λ not_shut. elim e [
                | inr (is_shut, _) ↦ absurd (cc)
                | inl (is_open, fd, f) ↦
                    Returns.bind (exclude-files flags (files s.world) _ f) λ exclusive u (same, g).
                      Returns.branch (not exclusive) _ _ u
                        (λ no_excl. elim g [
                          | inl (yes_excl, _) ↦ absurd (cc)
                          | inr (_, h) ↦ returns (inr (refl, h))
                        ])
                        λ yes_excl. elim g [
                          | inr (no_excl, _) ↦ absurd (cc)
                          | inl (_, h) ↦ report-files (files s.world) caps u (
                            (own_nack, ap (λ (p : Port). p.fn) same ∙ (fn ∙ filled)),
                            ap (λ (p : Port). is_neg p.fd) same ∙ fd,
                            h ∙ ap (λ (p : Port). p.fd ∷ files s.world) (sym same),
                          )
                        ]
              ]

  pub ppdev_cleanup-files :
      (s : Machine W) (others : List ℤ)
      → is_neg s.port.fd ≡ false
      → files s.world ≡ s.port.fd ∷ others
      → Returns (λ _ t. files t.world ≡ others) (cleanup host s)
  unfolding cleanup
  ppdev_cleanup-files s others fd f = rw fd (returns (laws.closes _ _ _ f))
