-- ===== src/Default/EcpWrite/Recovery.antt =====
-- The recovery of a transfer in the ECP writes of src/default.c, with a peripheral that lets it be
-- tried again a limited number of times.
use native.Mathlib.Nat.{le_of_suc-le-suc, le_trans, lt_of_le_of_lt, lt_of_lt_of_le}
use libieee.Port.Returns
use libieee.Port.Status
use libieee.Common.{
  Bool-cases, arith, false, inl, inr, meets, refl, suc, to_byte, true, truthy, zero, ℕ, ◌<◌, ◌≡◌,
  ◌≤◌,
}
use libieee.Default.EcpWrite.{await_busy, recover, try_byte}
use libieee.Default.Link.{signal}
use libieee.Port.Clock.{Clock, TimeVal, before, deadline_after, udelay, udelay_loop}
use libieee.Port.Machine.{Machine}
use libieee.Port.Methods.{Pins}
use libieee.Port.Quiet.{Same, Same-refl, Same-trans, Waits}
use libieee.Port.Returns.{Returns, returns}

-- From `s` the session is kept, and the peripheral has not become more patient.
abbrev pub Calm : {W : Type 0} → (W → ℕ) → Machine W → Machine W → Type 0
Calm patience s t = Same s t × (patience t.world ≤ patience s.world)

-- The pin-level methods return and keep the session. `patience` bounds how often the peripheral can
-- still be seen to pull PError low, which is how it answers a recovery: nothing makes it larger, and
-- a read of the status with PError low makes it smaller.
pub record Patient {W : Type 0} (pin : Pins W) (clock : Clock W) (patience : W → ℕ) : Type 0 where
  pub write_data :
      (s : Machine W) (byte : ℕ) → Returns (λ _ t. Calm patience s t) (pin.write_data byte s)
  pub frob_control :
      (s : Machine W) (mask val : ℕ)
      → Returns (λ _ t. Calm patience s t) (pin.frob_control mask val s)
  pub wait_status :
      (s : Machine W) (mask val : ℕ)
      → Returns (λ _ t. Calm patience s t) (pin.wait_status mask val signal s)
  pub read_status :
      (s : Machine W)
      → Returns
          (λ r t.
            Calm patience s t
            × (meets (to_byte r) Status.perror ≡ false → patience t.world < patience s.world))
          (pin.read_status s)
  pub look : (w : W) → patience (clock.gettimeofday w).1 ≤ patience w

module _ {W : Type 0} {pin : Pins W} {clock : Clock W} {patience : W → ℕ}
    (patient : Patient pin clock patience) (rounds : ℕ) (waits : Waits clock rounds 50) where
  pub Calm-refl : (s : Machine W) → Calm patience s s
  Calm-refl s = (Same-refl s, omega arith)

  pub Calm-trans : {s t u : Machine W} → Calm patience s t → Calm patience t u → Calm patience s u
  Calm-trans e f = (Same-trans e.0 f.0, le_trans f.1 e.1)

  udelay_loop-Calm :
      {P : Unit {0} → Machine W → Type 0} (k : ℕ) (deadline : TimeVal) (s : Machine W)
      → Returns P (udelay_loop clock k deadline s)
      → Returns
          (λ a t. P a t × (patience t.world ≤ patience s.world))
          (udelay_loop clock k deadline s)
  unfolding udelay_loop
  udelay_loop-Calm zero deadline s h = absurd (Returns.not_out_of_rounds _ h refl)
  udelay_loop-Calm (suc k) deadline s h =
      let now = clock.gettimeofday s.world in
      elim (Bool-cases (before now.0 deadline)) [
        | inl early ↦ rw early (
            Returns.mono (udelay_loop-Calm k deadline (record s { world = now.1 }) (rw early at h))
              λ a t e. (e.0, le_trans e.1 (patient.look s.world)))
        | inr over ↦ rw over (returns (Returns.of_done (rw over at h), patient.look s.world))
      ]

  pub udelay-Calm :
      (usec : ℕ) (s : Machine W)
      → usec ≤ 50
      → Returns (λ _ t. Calm patience s t) (udelay clock rounds usec s)
  unfolding udelay
  udelay-Calm usec s short =
      let now = clock.gettimeofday s.world in
      Returns.mono
        (udelay_loop-Calm rounds (deadline_after now.0 (record { tv_sec = 0; tv_usec = usec }))
          (record s { world = now.1 }) (waits s usec short))
        λ a t e. (e.0, le_trans e.1 (patient.look s.world))

  await_busy-Calm :
      (n : ℕ) (s : Machine W) → Returns (λ _ t. Calm patience s t) (await_busy clock rounds pin n s)
  unfolding await_busy
  await_busy-Calm zero s = returns (Calm-refl s)
  await_busy-Calm (suc n) s = Returns.bind (patient.wait_status s _ _) λ r t e.
      Returns.branch (truthy r) _ _ t
        (λ _. Returns.mono (await_busy-Calm n t) λ _ u f. Calm-trans e f) λ _. returns e

  -- A recovery after which the byte is tried again has cost some patience.
  recover-Calm :
      (s : Machine W)
      → Returns
          (λ again t. Calm patience s t × (again ≡ true → patience t.world < patience s.world))
          (recover clock rounds pin s)
  unfolding recover
  recover-Calm s = Returns.bind (patient.frob_control s _ _) λ _ t e.
      Returns.bind (udelay-Calm 50 t (omega arith)) λ _ u f.
        Returns.bind (patient.read_status u) λ status v g.
          Returns.bind (patient.frob_control v _ _) λ _ w h.
            let now = Calm-trans e (Calm-trans f (Calm-trans g.0 h)) in
            Returns.branch (meets (to_byte status) Status.perror) _ _ w
              (λ _. returns (now, λ again. absurd (cc)))
              λ low. Returns.bind (udelay-Calm 50 w (omega arith)) λ _ x i.
                Returns.bind (patient.read_status x) λ status y j.
                  let rest = Calm-trans h (Calm-trans i j.0) in
                  returns (
                    Calm-trans now (Calm-trans i j.0),
                    λ _. lt_of_le_of_lt rest.1 (lt_of_lt_of_le (g.1 low) (le_trans f.1 e.1)),
                  )

  -- A byte is taken or given up, with more rounds than the peripheral has patience.
  pub try_byte-Calm :
      (k byte : ℕ) (s : Machine W)
      → patience s.world < k
      → Returns (λ _ t. Calm patience s t) (try_byte clock rounds pin k byte s)
  unfolding try_byte
  try_byte-Calm zero byte s h = absurd (omega arith)
  try_byte-Calm (suc k) byte s h = Returns.bind (patient.write_data s byte) λ _ t e.
      Returns.bind (patient.frob_control t _ _) λ _ u f.
        Returns.bind (udelay-Calm 5 u (omega arith)) λ _ v g.
          Returns.bind (await_busy-Calm 100 v) λ success w i.
            let now = Calm-trans e (Calm-trans f (Calm-trans g i)) in
            Returns.branch success _ _ w (λ _. returns now)
              λ _. Returns.bind (recover-Calm w) λ again x j.
                let later = Calm-trans now j.0 in
                Returns.branch again _ _ x
                  (λ once_more.
                    Returns.mono
                      (try_byte-Calm k byte x
                        (lt_of_lt_of_le (j.1 once_more) (le_trans now.1 (le_of_suc-le-suc h))))
                      λ _ y l. Calm-trans later l)
                  λ _. returns later
