-- ===== src/Detect/Calls.antt =====
-- The state that src/detect.c keeps, and the calls of the system that it makes.
use libieee.Common.{Bool, Option, ℕ, ℤ, ◌∪◌}
use libieee.Port.Host.{Host}
use libieee.Port.Machine.{Text}

-- `capabilities`, the static variable `detected`, and the system.
pub record Known (W : Type 0) : Type 0 where
  pub capabilities : ℕ
  pub detected : Bool
  pub world : W

-- What stat says of a file: whether it is a directory, and st_nlink.
pub record FileStatus : Type 0 where
  pub is_dir : Bool
  pub nlink : ℕ

-- `open_read_only` is `open (name, O_RDONLY | O_NOCTTY)`; the other calls are those of the methods.
pub record System (W : Type 0) : Type 0 where
  pub host : Host W
  pub open_read_only : Text → W → ℤ × W
  pub stat : Text → W → Option FileStatus × W

abbrev pub Detecting : Type 0 → Type 0 → Type 0
Detecting W A = Known W → A × Known W

abbrev pub pure : {W A : Type 0} → A → Detecting W A
pure a k = (a, k)

module _ {W A B : Type 0} where
  infixl 5 ◌>>=◌ ◌>>◌
  abbrev pub ◌>>=◌ : Detecting W A → (A → Detecting W B) → Detecting W B
  m >>= next = λ k. let (a, k') = m k in next a k'

  abbrev pub ◌>>◌ : Detecting W A → Detecting W B → Detecting W B
  m >> n = m >>= λ _. n

abbrev pub ask : {W A : Type 0} → (W → A × W) → Detecting W A
ask f k = let (a, w) = f k.world in (a, record k { world = w })

abbrev pub put : {W : Type 0} → (W → W) → Detecting W (Unit {0})
put f k = (tt, record k { world = f k.world })

-- `capabilities |= bits`
abbrev pub found_capable : {W : Type 0} → ℕ → Detecting W (Unit {0})
found_capable bits k = (tt, record k { capabilities = k.capabilities ∪ bits })
