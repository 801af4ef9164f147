-- ===== src/State/Files.antt =====
-- The files that are open while init_port of src/state.c tries one access method after the other.
use libieee.Port.Capable
use libieee.Port.E1284
use libieee.Port.Returns
use libieee.Common.{
  Bool, List, Option, and_left, and_right, false, inl, inr, meets, refl, true, truthy, ℕ, ℤ, ◌&&◌,
  ◌≡◌,
}
use libieee.Common.Bits.{bit}
use libieee.Port.Descriptors.{Tried}
use libieee.Port.Machine.{Machine, Table}
use libieee.Port.Methods.{Methods}
use libieee.Port.Returns.{Returns, returns}
use libieee.State.{init_port, or_lpt, or_method, try_method}

module _ {W : Type 0} (methods : Table → Methods W) (files : W → List ℤ) (others : List ℤ) where
  -- What init_port needs of an access method: it leaves a file with the port, or none.
  abbrev pub Tries : ℕ → Table → Type 0
  Tries type table =
      (flags : ℕ) (caps : Option ℕ) (s : Machine W)
      → s.port.type ≡ type
      → s.port.fn ≡ table
      → files s.world ≡ others
      → Returns (Tried files others) ((methods table).init flags caps s)

  or_method-Tried :
      (capabilities bit : ℕ) (table : Table)
      → Tries bit table
      → (flags : ℕ) (r : ℤ × Option ℕ) (s : Machine W) → Tried files others r s
      → Returns (Tried files others) (or_method methods capabilities bit table flags r s)
  unfolding or_method try_method
  or_method-Tried capabilities bit table tries flags (ret, caps) s tried =
      Returns.branch (truthy ret && meets capabilities bit) _ _ s
        (λ both. elim tried [
          | inl (fine, _) ↦ absurd (cc (and_left (truthy ret) (meets capabilities bit) both, fine))
          | inr (_, f) ↦ tries flags caps _ refl refl f
        ])
        λ _. returns tried

  or_lpt-Tried :
      (capabilities flags : ℕ) (r : ℤ × Option ℕ) (s : Machine W)
      → meets capabilities Capable.lpt ≡ false
      → Tried files others r s
      → Returns (Tried files others) (or_lpt methods capabilities flags r s)
  unfolding or_lpt
  or_lpt-Tried capabilities flags (ret, caps) s no_lpt tried =
      Returns.branch (truthy ret && meets capabilities Capable.lpt) _ _ s
        (λ both. absurd (cc (and_right (truthy ret) _ both, no_lpt))) λ _. returns tried

  pub init_port-Tried :
      (capabilities : ℕ)
      → meets capabilities Capable.lpt ≡ false
      → Tries Capable.ppdev (Table.ppdev_access_methods true)
      → Tries Capable.io (Table.io_access_methods false)
      → Tries Capable.dev_port (Table.io_access_methods false)
      → (disallow_ppdev : Bool) (flags : ℕ) (caps : Option ℕ) (s : Machine W)
      → files s.world ≡ others
      → Returns (Tried files others) (init_port methods capabilities disallow_ppdev flags caps s)
  unfolding init_port
  init_port-Tried capabilities no_lpt ppdev io dev_port disallow_ppdev flags caps s f =
      Returns.bind {P = Tried files others}
        (Returns.branch disallow_ppdev _ _ s (λ _. returns (inr (refl, f)))
          λ _.
            or_method-Tried capabilities Capable.ppdev (Table.ppdev_access_methods true) ppdev flags
              (E1284.init, caps) s (inr (refl, f)))
        λ r t e.
          Returns.bind
            (or_method-Tried capabilities Capable.io (Table.io_access_methods false) io flags r t e)
            λ r u g.
              Returns.bind
                (or_method-Tried capabilities Capable.dev_port (Table.io_access_methods false)
                  dev_port flags r u g)
                λ r v h. or_lpt-Tried capabilities flags r v no_lpt h
