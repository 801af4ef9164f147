-- ===== src/Default/Link/Peripheral.antt =====
-- default_negotiate of src/default.c with a peripheral at the other end, which follows the events
-- that the comments of the source number: it answers each request, and serves some.
pub mod Events
use libieee.Port.Control
use libieee.Port.E1284
use libieee.Port.Mode
use libieee.Port.Status
use libieee.Common.{
  Bool, complement, false, if◌then◌else◌, meets, not, to_byte, truthy, ℕ, ℤ, ◌%◌, ◌&&◌, ◌==◌, ◌∩◌,
  ◌∪◌, ◌≡◌, ◌⊖◌,
}
use libieee.Default.Link.{request, signal}
use libieee.Port.Clock.{Clock, TimeVal}
use libieee.Port.Machine.{Machine}
use libieee.Port.Methods.{Pins}
use libieee.Port.Quiet.{Same}
use libieee.Port.Returns.{Returns}

-- Where the peripheral stands: which of events 1, 3, 6 and 31 was the last, with the request that it
-- has taken from the data lines.
pub data Stage : Type 0 where
  before_1 after_1 : Stage
  after_3 after_6 after_31 : (extensibility : ℕ) → Stage

-- The control lines, the data lines and the peripheral.
pub record Wires : Type 0 where
  pub lines : ℕ
  pub data_lines : ℕ
  pub stage : Stage

-- What the peripheral makes of a change of the control lines.
abbrev pub react : Stage → (lines data_lines : ℕ) → Stage
react before_1 lines d =
    if meets lines Control.nselectin
      && not (meets lines Control.nautofd)
      && meets lines Control.nstrobe
    then after_1
    else before_1
react after_1 lines d = if meets lines Control.nstrobe then after_1 else after_3 d
react (after_3 e) lines d =
    if meets lines Control.nstrobe && meets lines Control.nautofd then after_6 e else after_3 e
react (after_6 e) lines d = if meets lines Control.nautofd then after_6 e else after_31 e
react (after_31 e) lines d = after_31 e

abbrev pub frob_wires : ℕ → ℕ → Wires → Wires
frob_wires mask val w =
    let lines = ((w.lines ∩ complement mask) ⊖ val) ∩ Control.pins in
    record w { lines = lines; stage = react w.stage lines w.data_lines }

-- XFlag: high for a request that is served, but for the nibble mode, whose request is 0.
abbrev pub xflag : (ℕ → Bool) → ℕ → Bool
xflag supports e = not (e == 0) && supports e

-- The status lines.
abbrev pub shown : (ℕ → Bool) → Stage → ℕ
shown supports before_1 = Status.select ∪ Status.nfault ∪ Status.nack
shown supports after_1 = Status.perror ∪ Status.select ∪ Status.nfault
shown supports (after_3 e) = Status.perror ∪ Status.select ∪ Status.nfault
shown supports (after_6 e) = Status.nack ∪ (if xflag supports e then Status.select else 0)
shown supports (after_31 e) =
    Status.perror ∪ Status.nack ∪ (if xflag supports e then Status.select else 0)

-- Pin-level methods that are wired to the peripheral. A wait for lines that are there succeeds.
pub record Wired {W : Type 0} (wires : W → Wires) (supports : ℕ → Bool) (clock : Clock W)
    (pin : Pins W) : Type 0 where
  pub write_data :
      (s : Machine W) (byte : ℕ)
      → Returns
          (λ _ t. Same s t × (wires t.world ≡ record (wires s.world) { data_lines = byte }))
          (pin.write_data byte s)
  pub frob_control :
      (s : Machine W) (mask val : ℕ)
      → Returns
          (λ _ t. Same s t × (wires t.world ≡ frob_wires mask val (wires s.world)))
          (pin.frob_control mask val s)
  pub wait_status :
      (s : Machine W) (mask val : ℕ)
      → shown supports (wires s.world).stage ∩ mask ≡ val
      → Returns
          (λ r t. Same s t × (wires t.world ≡ wires s.world) × (truthy r ≡ false))
          (pin.wait_status mask val signal s)
  pub read_status :
      (s : Machine W)
      → Returns
          (λ r t.
            Same s t
            × (wires t.world ≡ wires s.world)
            × (to_byte r ≡ shown supports (wires s.world).stage))
          (pin.read_status s)
  pub select : (w : W) (t : TimeVal) → wires (clock.select t w) ≡ wires w

-- Does the peripheral serve the mode?
abbrev pub serves : (ℕ → Bool) → ℕ → Bool
serves supports mode =
    let xflag_high = xflag supports (request mode % 256) in
    if mode == 0 then not xflag_high else xflag_high

-- The result of a negotiation that the peripheral answers.
pub record Answered {W : Type 0} (served : Bool) (mode : ℕ) (r : ℤ) (t : Machine W) : Type 0 where
  pub result : r ≡ (if served then E1284.ok else E1284.rejected)
  pub in_mode : t.port.current_mode ≡ (if served then mode else Mode.compat)
