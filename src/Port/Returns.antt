-- ===== src/Port/Returns.antt =====
-- Total correctness of a run: it returns, and what it returns and leaves has a property.
use libieee.Common.{Bool, Option, false, if◌then◌else◌, none, refl, some, true, ◌≡◌, ◌≢◌}
use libieee.Port.Machine.{Machine}
use libieee.Port.Run.{Outcome, Run, and_then, done, out_of_rounds}

pub data Returns {W A : Type 0} (P : A → Machine W → Type 0) : Outcome W A → Type 0 where
  returns : {a : A} {s : Machine W} → P a s → Returns P (done a s)

module _ {W A : Type 0} {P : A → Machine W → Type 0} where
  pub bind :
      {B : Type 0} {Q : B → Machine W → Type 0} {r : Outcome W A} {k : A → Run W B}
      → Returns P r
      → ((a : A) (s : Machine W) → P a s → Returns Q (k a s))
      → Returns Q (and_then r k)
  bind (returns p) next = next _ _ p

  pub mono :
      {Q : A → Machine W → Type 0} {r : Outcome W A}
      → Returns P r
      → ((a : A) (s : Machine W) → P a s → Q a s)
      → Returns Q r
  mono (returns p) weaken = returns (weaken _ _ p)

  -- What a run that returns has, where its result is known.
  pub of_done : {a : A} {s : Machine W} → Returns P (done a s) → P a s
  of_done (returns p) = p

  pub known : {a : A} {s : Machine W} (r : Outcome W A) → Returns P r → r ≡ done a s → P a s
  known r h e = of_done (rw e at h)

  -- A run that returns has not used up its rounds.
  pub not_out_of_rounds : (r : Outcome W A) → Returns P r → r ≢ out_of_rounds
  not_out_of_rounds r (returns p) e = absurd (cc)

  -- A run that branches on a test.
  pub branch :
      (b : Bool) (x y : Run W A) (s : Machine W)
      → (b ≡ true → Returns P (x s))
      → (b ≡ false → Returns P (y s))
      → Returns P ((if b then x else y) s)
  branch true x y s yes_case no_case = yes_case refl
  branch false x y s yes_case no_case = no_case refl

  -- A run that goes on with what there is, or without it.
  pub optional :
      {C : Type 0} (o : Option C) (x : Run W A) (k : C → Run W A) (s : Machine W)
      → Returns P (x s)
      → ((c : C) → Returns P (k c s))
      → Returns P ((elim o as (λ _. Run W A) [ none ↦ x | some c ↦ k c ]) s)
  optional none x k s missing found = missing
  optional (some c) x k s missing found = found c

module _ {W A B : Type 0} {P : B → Machine W → Type 0} where
  -- A run that branches on a test and then goes on.
  pub branch' :
      (b : Bool) (x y : Run W A) (s : Machine W) (k : A → Run W B)
      → (b ≡ true → Returns P (and_then (x s) k))
      → (b ≡ false → Returns P (and_then (y s) k))
      → Returns P (and_then ((if b then x else y) s) k)
  branch' true x y s k yes_case no_case = yes_case refl
  branch' false x y s k yes_case no_case = no_case refl

-- Two properties of the same run.
pub also :
    {W A : Type 0} {P Q : A → Machine W → Type 0} {r : Outcome W A}
    → Returns P r
    → Returns Q r
    → Returns (λ a s. P a s × Q a s) r
also (returns p) h = returns (p, of_done h)
