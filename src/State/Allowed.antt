-- ===== src/State/Allowed.antt =====
-- Which access method ieee1284_open of src/state.c leaves a port with.
use libieee.Port.Capable
use libieee.Port.E1284
use libieee.Port.Returns
use libieee.Common.{
  Bool, Option, and_right, ap, false, incr, inl, inr, meets, refl, true, truthy, ℕ, ℤ, ◌&&◌, ◌∙◌,
  ◌≡◌, ◌⊎◌,
}
use libieee.Common.Bits.{bit}
use libieee.Port.Life.{Available, Lifetime, LifetimeKept}
use libieee.Port.Machine.{Machine, Table}
use libieee.Port.Methods.{Methods}
use libieee.Port.Returns.{Returns, returns}
use libieee.State.{ieee1284_open, init_port, or_lpt, or_method, try_method}
use libieee.State.Choice.{init_port-lifetime}

-- The type of a port that is open: one that the system has, and not ppdev where the configuration
-- forbids it.
pub data Allowed (capabilities : ℕ) (disallow_ppdev : Bool) : ℕ → Type 0 where
  by_ppdev :
      disallow_ppdev ≡ false
      → meets capabilities Capable.ppdev ≡ true
      → Allowed capabilities disallow_ppdev Capable.ppdev
  by_io : meets capabilities Capable.io ≡ true → Allowed capabilities disallow_ppdev Capable.io
  by_dev_port :
      meets capabilities Capable.dev_port ≡ true
      → Allowed capabilities disallow_ppdev Capable.dev_port
  by_lpt : meets capabilities Capable.lpt ≡ true → Allowed capabilities disallow_ppdev Capable.lpt

-- An init returns, and leaves the type that init_port has set.
abbrev pub InitTyped : {W : Type 0} → (Table → Methods W) → ℕ → Type 0
InitTyped {W = W} methods capabilities =
    (table : Table)
    → Available capabilities table
    → (s : Machine W) (flags : ℕ) (caps : Option ℕ)
    → Returns (λ _ t. t.port.type ≡ s.port.type) ((methods table).init flags caps s)

module _ {W : Type 0} (methods : Table → Methods W) (capabilities : ℕ)
    (init : InitTyped methods capabilities) (disallow_ppdev : Bool) where
  -- Where a method has been found, its type is allowed.
  abbrev Typed : ℤ × Option ℕ → Machine W → Type 0
  Typed r t = truthy r.0 ≡ false → Allowed capabilities disallow_ppdev t.port.type

  try_method-type :
      (type : ℕ) (table : Table)
      → Available capabilities table
      → (flags : ℕ) (caps : Option ℕ) (s : Machine W)
      → Returns (λ _ t. t.port.type ≡ type) (try_method methods type table flags caps s)
  unfolding try_method
  try_method-type type table filled flags caps s =
      init table filled (record s { port = record (s.port) { type = type; fn = table } }) flags caps

  or_method-Typed :
      (bit : ℕ) (table : Table)
      → Available capabilities table
      → (flags : ℕ) (r : ℤ × Option ℕ) (s : Machine W)
      → (meets capabilities bit ≡ true → Allowed capabilities disallow_ppdev bit)
      → Typed r s
      → Returns Typed (or_method methods capabilities bit table flags r s)
  unfolding or_method
  or_method-Typed bit table filled flags (ret, caps) s allowed typed =
      Returns.branch (truthy ret && meets capabilities bit) _ _ s
        (λ both.
          Returns.mono (try_method-type bit table filled flags caps s)
            λ r t e fine. rw e (allowed (and_right (truthy ret) _ both)))
        λ _. returns typed

  or_lpt-Typed :
      (flags : ℕ) (r : ℤ × Option ℕ) (s : Machine W)
      → Typed r s
      → Returns Typed (or_lpt methods capabilities flags r s)
  unfolding or_lpt
  or_lpt-Typed flags (ret, caps) s typed =
      Returns.branch (truthy ret && meets capabilities Capable.lpt) _ _ s
        (λ both.
          Returns.bind
            (try_method-type Capable.lpt Table.lpt_access_methods (and_right (truthy ret) _ both)
              flags caps s)
            λ r t e. returns λ fine. rw e (by_lpt (and_right (truthy ret) _ both)))
        λ _. returns typed

  init_port-Typed :
      (flags : ℕ) (caps : Option ℕ) (s : Machine W)
      → Returns Typed (init_port methods capabilities disallow_ppdev flags caps s)
  unfolding init_port
  init_port-Typed flags caps s =
      Returns.bind {P = Typed}
        (Returns.branch disallow_ppdev _ _ s (λ _. returns λ no_case. absurd (cc))
          λ permitted.
            or_method-Typed Capable.ppdev (Table.ppdev_access_methods true) tt flags
              (E1284.init, caps) s (by_ppdev permitted) (λ no_case. absurd (cc)))
        λ r t e.
          Returns.bind
            (or_method-Typed Capable.io (Table.io_access_methods false) tt flags r t by_io e)
            λ r u f.
              Returns.bind
                (or_method-Typed Capable.dev_port (Table.io_access_methods false) tt flags r u
                  by_dev_port f)
                λ r v g. or_lpt-Typed flags r v g

  -- An open of a port that is not open returns. If it succeeds, the port is open, by an access
  -- method that the system is known to have, and by ppdev only if the configuration does not
  -- disallow it; if not, the port is not open and has as many references as before. Each init
  -- returns, and leaves the count and the type that has been set.
  pub open-Allowed :
      LifetimeKept methods capabilities
      → (flags : ℕ) (caps : Option ℕ) (s : Machine W) → s.port.opened ≡ false
      → Returns
          (λ r t.
            ((truthy r.0 ≡ false)
              × (t.port.opened ≡ true)
              × (t.port.ref ≡ incr s.port.ref)
              × Allowed capabilities disallow_ppdev t.port.type)
            ⊎ ((truthy r.0 ≡ true) × (t.port.opened ≡ false) × (t.port.ref ≡ s.port.ref)))
          (ieee1284_open methods capabilities disallow_ppdev flags caps s)
  unfolding ieee1284_open
  open-Allowed kept flags caps s closed =
      Returns.branch s.port.opened _ _ s (λ is_open. absurd (cc))
        λ _.
          Returns.bind
            (Returns.also (init_port-Typed flags _ s)
              (init_port-lifetime kept disallow_ppdev flags _ s))
            λ (ret, caps) t e.
              Returns.branch (truthy ret) _ _ t
                (λ failed. returns (
                  inr (
                    failed,
                    ap (λ (l : Lifetime). l.opened) e.1 ∙ closed,
                    ap (λ (l : Lifetime). l.ref) e.1,
                  )))
                λ fine. returns (inl (refl, refl, ap (λ (l : Lifetime). incr l.ref) e.1, e.0 fine))
