-- ===== src/Io/Files.antt =====
-- The files that init and cleanup of src/access_io.c open and close.
use libieee.Port.Capable
use libieee.Port.Returns
use libieee.Common.{
  Bool, List, Option, ap, false, inl, inr, is_neg, not, refl, true, truthy, ℕ, ℤ, ◌==◌, ◌∙◌, ◌∷◌,
  ◌≡◌, ◌⊎◌,
}
use libieee.Io.{cleanup, dev_port_name, get_permission, init, open_dev_port}
use libieee.Port.Descriptors.{HasFile, HostFiles, Tried, dev_port_open, no_file_open}
use libieee.Port.Host.{Host}
use libieee.Port.Machine.{Machine, Port, Table}
use libieee.Port.Returns.{Returns, returns}

module _ {W : Type 0} (host : Host W) {files : W → List ℤ} (laws : HostFiles host files) where
  get_permission-files :
      (s : Machine W)
      → Returns (λ _ t. (t.port ≡ s.port) × (files t.world ≡ files s.world)) (get_permission host s)
  unfolding get_permission
  get_permission-files s =
      let first = host.ioperm s.port.base 3 1 s.world in
      Returns.branch (truthy first.0) _ _ _ (λ _. returns (refl, laws.ioperm _ _ _ s.world))
        λ _. returns (refl, laws.ioperm _ _ _ first.1 ∙ laws.ioperm _ _ _ s.world)

  -- The file of /dev/port is open, or there is none.
  open_dev_port-files :
      (s : Machine W)
      → Returns
          (λ ready t.
            ((ready ≡ true)
              × (t.port.fn ≡ Table.io_access_methods true)
              × (t.port.type ≡ s.port.type)
              × (is_neg t.port.fd ≡ false)
              × (files t.world ≡ t.port.fd ∷ files s.world))
            ⊎ ((ready ≡ false) × (files t.world ≡ files s.world)))
          (open_dev_port host s)
  unfolding open_dev_port
  open_dev_port-files s =
      let opened = host.open_file dev_port_name s.world in
      Returns.branch (is_neg opened.0) _ _ _
        (λ e. returns (inr (refl, laws.opens dev_port_name s.world ∙ rw e refl)))
        λ e. returns (inl (refl, refl, refl, e, laws.opens dev_port_name s.world ∙ rw e refl))

  -- The step before the test of `ready`.
  abbrev Readied : List ℤ → Bool → Machine W → Type 0
  Readied others ready t =
      ((ready ≡ true) × HasFile files others t) ⊎ ((ready ≡ false) × (files t.world ≡ others))

  permitted-Readied :
      (file_io ready : Bool) (s t : Machine W)
      → s.port.fn ≡ Table.io_access_methods file_io
      → (s.port.type == Capable.io) ≡ true
      → t.port ≡ s.port
      → files t.world ≡ files s.world
      → Readied (files s.world) ready t
  permitted-Readied file_io true s t filled type e f = inl (
    refl,
    no_file_open file_io (ap (λ (p : Port). p.fn) e ∙ filled)
        (ap (λ (p : Port). p.type == Capable.io) e ∙ type) f,
  )
  permitted-Readied file_io false s t filled type e f = inr (refl, f)

  pub io_init-Tried :
      (file_io : Bool) (flags : ℕ) (caps : Option ℕ) (s : Machine W)
      → s.port.fn ≡ Table.io_access_methods file_io
      → ((s.port.type == Capable.io) ≡ true) ⊎ ((s.port.type == Capable.dev_port) ≡ true)
      → Returns (Tried files (files s.world)) (init host flags caps s)
  unfolding init
  io_init-Tried file_io flags caps s filled type =
      Returns.branch (not (flags == 0)) _ _ s (λ _. returns (inr (refl, refl)))
        λ _.
          Returns.bind {P = Readied (files s.world)}
            (Returns.branch (s.port.type == Capable.io) _ _ s
              (λ by.
                Returns.mono (get_permission-files s)
                  λ ready t e. permitted-Readied file_io ready s t filled by e.0 e.1)
              λ other.
                Returns.branch (s.port.type == Capable.dev_port) _ _ s
                  (λ _. Returns.mono (open_dev_port-files s) λ ready t e. elim e [
                    | inl (fine, fn, same, fd, f) ↦
                        inl (fine, dev_port_open true fn (rw same other) fd f)
                    | inr failed ↦ inr failed
                  ])
                  λ neither. elim type [ inl h ↦ absurd (cc) | inr h ↦ absurd (cc) ])
            λ ready t e.
              Returns.branch ready _ _ t
                (λ yes_ready. elim e [
                  | inl (_, h) ↦ returns (inl (refl, h))
                  | inr (no_ready, _) ↦ absurd (cc)
                ])
                λ no_ready. elim e [
                  | inl (yes_ready, _) ↦ absurd (cc)
                  | inr (_, f) ↦ returns (inr (refl, f))
                ]

  pub io_cleanup-files :
      (s : Machine W) (others : List ℤ)
      → (s.port.type == Capable.io) ≡ true
      → files s.world ≡ others
      → Returns (λ _ t. files t.world ≡ others) (cleanup host s)
  unfolding cleanup
  io_cleanup-files s others type f = rw type (returns f)

  pub dev_port_cleanup-files :
      (s : Machine W) (others : List ℤ)
      → (s.port.type == Capable.io) ≡ false
      → is_neg s.port.fd ≡ false
      → files s.world ≡ s.port.fd ∷ others
      → Returns (λ _ t. files t.world ≡ others) (cleanup host s)
  unfolding cleanup
  dev_port_cleanup-files s others type fd f = rw (type, fd) (returns (laws.closes _ _ _ f))
