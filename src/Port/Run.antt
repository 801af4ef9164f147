-- ===== src/Port/Run.antt =====
-- Functions that take a port: what they return, what they leave behind, and the two other ways for
-- a run to end, a call through a null pointer and a loop that is given no more rounds.
use libieee.Common.{Option, false, none, some, ℕ}
use libieee.Port.Machine.{Machine, Port, Text}

pub data Outcome (W : Type 0) (A : Type 0) : Type 0 where
  done : A → Machine W → Outcome W A
  crash : Outcome W A
  out_of_rounds : Outcome W A

abbrev pub Run : Type 0 → Type 0 → Type 0
Run W A = Machine W → Outcome W A

module _ {W A : Type 0} where
  abbrev pub pure : A → Run W A
  pure a s = done a s

  -- A call through a function pointer that may be NULL.
  abbrev pub call : Option (Run W A) → Run W A
  call none s = crash
  call (some m) s = m s

  abbrev pub call_with : {X : Type 0} → Option (X → Run W A) → X → Run W A
  call_with none x s = crash
  call_with (some f) x s = f x s

  -- `if (fn) ret = fn (...)`, from the value that `ret` has before.
  abbrev pub or_else : A → Option (Run W A) → Run W A
  or_else d none s = done d s
  or_else d (some m) s = m s

  abbrev pub apply_or_else : {X : Type 0} → A → Option (X → Run W A) → X → Run W A
  apply_or_else d none x s = done d s
  apply_or_else d (some f) x s = f x s

  abbrev pub gets : (Port → A) → Run W A
  gets f s = done (f s.port) s

  -- A step of the world alone.
  abbrev pub ask : (W → A × W) → Run W A
  ask f s = let (a, w) = f s.world in done a (record s { world = w })

module _ {W A B : Type 0} where
  abbrev pub and_then : Outcome W A → (A → Run W B) → Outcome W B
  and_then (done a s) k = k a s
  and_then crash k = crash
  and_then out_of_rounds k = out_of_rounds

  infixl 5 ◌>>=◌ ◌>>◌
  abbrev pub ◌>>=◌ : Run W A → (A → Run W B) → Run W B
  m >>= k = λ s. and_then (m s) k

  abbrev pub ◌>>◌ : Run W A → Run W B → Run W B
  m >> n = m >>= λ _. n

abbrev pub put : {W : Type 0} → (W → W) → Run W (Unit {0})
put f s = done tt (record s { world = f s.world })

abbrev pub modify : {W : Type 0} → (Port → Port) → Run W (Unit {0})
modify f s = done tt (record s { port = f s.port })

abbrev pub skip : {W : Type 0} → Run W (Unit {0})
skip = pure tt

abbrev pub if_present : {W : Type 0} → Option (Run W (Unit {0})) → Run W (Unit {0})
if_present none = skip
if_present (some m) = m

-- `pport->filename = name`
abbrev pub set_filename : {W : Type 0} → Text → Run W (Unit {0})
set_filename name s = done tt (record s { filename = name })

-- The memory of the port is given back.
abbrev pub free_port : {W : Type 0} → Run W (Unit {0})
free_port s = done tt (record s { live = false })

-- An update of the capabilities that a caller may have asked for.
abbrev pub map_caps : (ℕ → ℕ) → Option ℕ → Option ℕ
map_caps f none = none
map_caps f (some c) = some (f c)
