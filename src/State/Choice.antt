-- ===== src/State/Choice.antt =====
-- The choice of an access method by init_port, and what it leaves of the port.
use libieee.Port.Capable
use libieee.Port.E1284
use libieee.Port.Returns
use libieee.Common.{Bool, Option, and_right, false, meets, refl, true, truthy, ℕ, ℤ, ◌&&◌, ◌∙◌, ◌≡◌}
use libieee.Common.Bits.{bit}
use libieee.Port.Life.{Available, Held, LifetimeKept, Usable, lifetime}
use libieee.Port.Machine.{Machine, Table}
use libieee.Port.Methods.{Methods}
use libieee.Port.Returns.{Returns, returns}
use libieee.State.{init_port, or_lpt, or_method, try_method}

module _ {W : Type 0} {methods : Table → Methods W} where
  module _ {capabilities : ℕ} (kept : LifetimeKept methods capabilities) where
    or_method-lifetime :
        (bit : ℕ) (table : Table)
        → Available capabilities table
        → (flags : ℕ) (r : ℤ × Option ℕ) (s : Machine W)
        → Returns
            (λ _ t. lifetime t ≡ lifetime s)
            (or_method methods capabilities bit table flags r s)
    unfolding or_method
    or_method-lifetime bit table filled flags (ret, caps) s =
        Returns.branch (truthy ret && meets capabilities bit) _ _ s
          (λ _. kept.init table filled _ flags caps) λ _. returns refl

    or_lpt-lifetime :
        (flags : ℕ) (r : ℤ × Option ℕ) (s : Machine W)
        → Returns (λ _ t. lifetime t ≡ lifetime s) (or_lpt methods capabilities flags r s)
    unfolding or_lpt
    or_lpt-lifetime flags (ret, caps) s =
        Returns.branch (truthy ret && meets capabilities Capable.lpt) _ _ s
          (λ both.
            Returns.bind
              (kept.init Table.lpt_access_methods (and_right (truthy ret) _ both) _ flags caps)
              λ r t e. returns e)
          λ _. returns refl

    -- The choice does not touch the reference count.
    pub init_port-lifetime :
        (disallow_ppdev : Bool) (flags : ℕ) (caps : Option ℕ) (s : Machine W)
        → Returns
            (λ _ t. lifetime t ≡ lifetime s)
            (init_port methods capabilities disallow_ppdev flags caps s)
    unfolding init_port
    init_port-lifetime disallow_ppdev flags caps s =
        Returns.bind {P = λ _ t. lifetime t ≡ lifetime s}
          (Returns.branch disallow_ppdev _ _ s (λ _. returns refl)
            λ _.
              or_method-lifetime Capable.ppdev (Table.ppdev_access_methods true) tt flags
                (E1284.init, caps) s)
          λ r t e.
            Returns.bind
              (or_method-lifetime Capable.io (Table.io_access_methods false) tt flags r t)
              λ r u f.
                Returns.bind
                  (or_method-lifetime Capable.dev_port (Table.io_access_methods false) tt flags r u)
                  λ r v g. Returns.mono (or_lpt-lifetime flags r v) λ _ w h. h ∙ g ∙ f ∙ e

-- What init has to do for the choice to leave a port with a table that works: return, and keep the
-- count and a table in the port.
abbrev pub InitHeld : {W : Type 0} → (Table → Methods W) → ℕ → Type 0
InitHeld {W = W} methods capabilities =
    (table : Table) (s : Machine W) (flags : ℕ) (caps : Option ℕ)
    → Usable capabilities s.port.fn
    → Usable capabilities table
    → Returns (λ _ t. Held capabilities s t) ((methods table).init flags caps s)

-- The count is kept, and a method that has been found has its table in the port.
pub record Chosen {W : Type 0} (capabilities : ℕ) (s : Machine W) (r : ℤ × Option ℕ) (t : Machine W)
    : Type 0 where
  pub life : lifetime t ≡ lifetime s
  pub filled : truthy r.0 ≡ false → Usable capabilities t.port.fn

module _ {W : Type 0} (methods : Table → Methods W) (capabilities : ℕ)
    (init : InitHeld methods capabilities) where
  try_method-Held :
      (type : ℕ) (table : Table) (flags : ℕ) (caps : Option ℕ) (s : Machine W)
      → Usable capabilities table
      → Returns (λ _ t. Held capabilities s t) (try_method methods type table flags caps s)
  unfolding try_method
  try_method-Held type table flags caps s filled =
      Returns.mono
        (init table (record s { port = record (s.port) { type = type; fn = table } }) flags caps
          filled filled)
        λ r t e. record { life = e.life; filled = e.filled }

  or_method-Chosen :
      (bit : ℕ) (table : Table) (flags : ℕ) (r : ℤ × Option ℕ) (s t : Machine W)
      → (meets capabilities bit ≡ true → Usable capabilities table)
      → Chosen capabilities s r t
      → Returns (Chosen capabilities s) (or_method methods capabilities bit table flags r t)
  unfolding or_method
  or_method-Chosen bit table flags (ret, caps) s t filled e =
      Returns.branch (truthy ret && meets capabilities bit) _ _ t
        (λ both.
          Returns.mono
            (try_method-Held bit table flags caps t (filled (and_right (truthy ret) _ both)))
            λ r u f. record { life = f.life ∙ e.life; filled = λ _. f.filled })
        λ _. returns e

  or_lpt-Chosen :
      (flags : ℕ) (r : ℤ × Option ℕ) (s t : Machine W)
      → Chosen capabilities s r t
      → Returns (Chosen capabilities s) (or_lpt methods capabilities flags r t)
  unfolding or_lpt
  or_lpt-Chosen flags (ret, caps) s t e =
      Returns.branch (truthy ret && meets capabilities Capable.lpt) _ _ t
        (λ both.
          Returns.bind
            (try_method-Held Capable.lpt Table.lpt_access_methods flags caps t
              (and_right (truthy ret) _ both))
            λ r u f. returns (record { life = f.life ∙ e.life; filled = λ _. f.filled }))
        λ _. returns e

  pub init_port-Chosen :
      (disallow_ppdev : Bool) (flags : ℕ) (caps : Option ℕ) (s : Machine W)
      → Returns (Chosen capabilities s) (init_port methods capabilities disallow_ppdev flags caps s)
  unfolding init_port
  init_port-Chosen disallow_ppdev flags caps s =
      let start : Chosen capabilities s (E1284.init, caps) s = record {
        life = refl;
        filled = λ h. absurd (cc);
      } in
      Returns.bind {P = Chosen capabilities s}
        (Returns.branch disallow_ppdev _ _ s (λ _. returns start)
          λ _.
            or_method-Chosen Capable.ppdev (Table.ppdev_access_methods true) flags _ s s
              (λ found. found) start)
        λ r t e.
          Returns.bind
            (or_method-Chosen Capable.io (Table.io_access_methods false) flags r s t (λ _. tt) e)
            λ r u f.
              Returns.bind
                (or_method-Chosen Capable.dev_port (Table.io_access_methods false) flags r s u
                  (λ _. tt) f)
                λ r v g. or_lpt-Chosen flags r s v g
