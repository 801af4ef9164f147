-- ===== src/Port/Quiet.antt =====
-- What the pin-level methods may do to a port: they return, and leave its IEEE 1284 session as it
-- was. The register copy `ctr` and the world are theirs to change.
use libieee.Port.Returns
use libieee.Common.{Bool, ap, refl, ℕ, ℤ, ◌∙◌, ◌≡◌, ◌≤◌}
use libieee.Port.Clock.{Clock, Delays, delay, lookup_delay, timeval_signal_timeout, udelay}
use libieee.Port.Machine.{Machine, Phase, Port, Table}
use libieee.Port.Methods.{Pins}
use libieee.Port.Returns.{Returns, returns}
use libieee.Port.Run.{Outcome, Run, and_then, call, call_with}

-- The fields of a port that the open, the claim and the negotiated mode live in.
pub record Session : Type 0 where
  pub opened : Bool
  pub claimed : Bool
  pub current_mode : ℕ
  pub current_channel : ℕ
  pub current_phase : Phase
  pub ref : ℤ
  pub fn : Table
  pub live : Bool

abbrev pub session_of : Port → Bool → Session
session_of p live = record {
  opened = p.opened;
  claimed = p.claimed;
  current_mode = p.current_mode;
  current_channel = p.current_channel;
  current_phase = p.current_phase;
  ref = p.ref;
  fn = p.fn;
  live = live;
}

abbrev pub session : {W : Type 0} → Machine W → Session
session s = session_of s.port s.live

-- The session of `t` is that of `s`.
pub record Same {W : Type 0} (s t : Machine W) : Type 0 where
  pub same : session t ≡ session s

-- Run `r`, from machine `s`, returns and keeps the session.
abbrev pub Keeps : {W A : Type 0} → Machine W → Outcome W A → Type 0
Keeps s r = Returns (λ _ t. Same s t) r

module _ {W : Type 0} where
  pub Same-refl : (s : Machine W) → Same s s
  Same-refl s = record { same = refl }

  pub Same-trans : {s t u : Machine W} → Same s t → Same t u → Same s u
  Same-trans p q = record { same = q.same ∙ p.same }

  pub Same-mode : {s t : Machine W} → Same s t → t.port.current_mode ≡ s.port.current_mode
  Same-mode p = ap (λ (x : Session). x.current_mode) p.same

  pub Same-phase : {s t : Machine W} → Same s t → t.port.current_phase ≡ s.port.current_phase
  Same-phase p = ap (λ (x : Session). x.current_phase) p.same

pub record QuietPins {W : Type 0} (pin : Pins W) : Type 0 where
  pub write_data : (s : Machine W) (byte : ℕ) → Keeps s (pin.write_data byte s)
  pub read_status : (s : Machine W) → Keeps s (pin.read_status s)
  pub wait_status :
      (s : Machine W) (mask val : ℕ)
      → Keeps s (pin.wait_status mask val (lookup_delay timeval_signal_timeout) s)
  pub write_control : (s : Machine W) (reg : ℕ) → Keeps s (pin.write_control reg s)
  pub frob_control : (s : Machine W) (mask val : ℕ) → Keeps s (pin.frob_control mask val s)

-- The methods that the table for NT leaves out: data lines that can be read and turned round.
pub record QuietData {W : Type 0} (pin : Pins W) : Type 0 where
  pub read_data : (s : Machine W) → Keeps s (call pin.read_data s)
  pub data_dir : (s : Machine W) (reverse : ℕ) → Keeps s (call_with pin.data_dir reverse s)

module _ {W A B : Type 0} where
  -- A quiet step, and a run after it that is quiet.
  pub Keeps-bind :
      {s : Machine W} {r : Outcome W A} {k : A → Run W B}
      → Keeps s r
      → ((a : A) (t : Machine W) → Keeps t (k a t))
      → Keeps s (and_then r k)
  Keeps-bind q next = Returns.bind q λ a t e. Returns.mono (next a t) λ b u f. Same-trans e f

module _ {W : Type 0} (clock : Clock W) where
  pub delay-Keeps : (which : Delays) (s : Machine W) → Keeps s (delay clock which s)
  unfolding delay
  delay-Keeps which s = returns (record { same = refl })

  -- The clock moves on fast enough for the delays of this many microseconds and fewer.
  abbrev pub Waits : ℕ → ℕ → Type 0
  Waits rounds limit =
      (s : Machine W) (usec : ℕ) → usec ≤ limit → Keeps s (udelay clock rounds usec s)
