-- ===== src/Port/Life.antt =====
-- What keeps a port in memory.
use libieee.Port.Capable
use libieee.Port.Returns
use libieee.Common.{Bool, Option, ap, meets, refl, true, ℕ, ℤ, ◌∙◌, ◌≡◌}
use libieee.Port.Machine.{Machine, Table}
use libieee.Port.Methods.{Methods}
use libieee.Port.Returns.{Returns}
use libieee.Port.Run.{Outcome, if_present}

-- What the count depends on.
pub record Lifetime : Type 0 where
  pub opened : Bool
  pub ref : ℤ
  pub live : Bool

abbrev pub lifetime : {W : Type 0} → Machine W → Lifetime
lifetime s = record { opened = s.port.opened; ref = s.port.ref; live = s.live }

-- Run `r`, from machine `s`, returns and leaves what the count depends on.
abbrev pub Lasts : {W A : Type 0} → Machine W → Outcome W A → Type 0
Lasts s r = Returns (λ _ t. lifetime t ≡ lifetime s) r

-- What init and cleanup of the tables leave alone: the above, and the type of the port.
pub record Standing : Type 0 where
  pub life : Lifetime
  pub type : ℕ

abbrev pub standing : {W : Type 0} → Machine W → Standing
standing s = record { life = lifetime s; type = s.port.type }

abbrev pub Stands : {W A : Type 0} → Machine W → Outcome W A → Type 0
Stands s r = Returns (λ _ t. standing t ≡ standing s) r

pub lasts : {W A : Type 0} (s : Machine W) {r : Outcome W A} → Stands s r → Lasts s r
lasts s h = Returns.mono h λ _ t e. ap (λ (x : Standing). x.life) e

-- A table that init_port may try on a system with these capabilities.
abbrev pub Available : ℕ → Table → Type 0
Available capabilities Table.zeroed = ⊥
Available capabilities Table.lpt_access_methods = meets capabilities Capable.lpt ≡ true
Available capabilities _ = Unit {0}

-- What init and cleanup of a table leave alone: they return, and the count is not theirs.
pub record LifetimeKept {W : Type 0} (methods : Table → Methods W) (capabilities : ℕ) : Type 0 where
  pub init :
      (table : Table)
      → Available capabilities table
      → (s : Machine W) (flags : ℕ) (caps : Option ℕ)
      → Returns (λ _ t. lifetime t ≡ lifetime s) ((methods table).init flags caps s)
  pub cleanup :
      (table : Table) (s : Machine W)
      → Returns (λ _ t. lifetime t ≡ lifetime s) (if_present (methods table).cleanup s)

-- A table that an open may leave in a port on a system with these capabilities.
abbrev pub Usable : ℕ → Table → Type 0
Usable capabilities Table.zeroed = ⊥
Usable capabilities Table.lpt_access_methods = meets capabilities Capable.lpt ≡ true
Usable capabilities (Table.ppdev_access_methods own_nack) = meets capabilities Capable.ppdev ≡ true
Usable capabilities (Table.io_access_methods file_io) = Unit {0}

-- The same count and the same open, with a table that an open may have copied.
pub record Held {W : Type 0} (capabilities : ℕ) (s t : Machine W) : Type 0 where
  pub life : lifetime t ≡ lifetime s
  pub filled : Usable capabilities t.port.fn

module _ {W : Type 0} {capabilities : ℕ} where
  pub unchanged : (s : Machine W) → Usable capabilities s.port.fn → Held capabilities s s
  unchanged s h = record { life = refl; filled = h }

  pub Held-trans :
      {s t u : Machine W} → Held capabilities s t → Held capabilities t u → Held capabilities s u
  Held-trans e f = record { life = f.life ∙ e.life; filled = f.filled }
