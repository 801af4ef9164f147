-- ===== src/Default/EcpRead.antt =====
-- default_ecp_read_data of src/default.c, with its run-length decoding, and default_ecp_read_addr.
pub mod Bounds
pub mod Runs
use libieee.Port.Control
use libieee.Port.E1284
use libieee.Port.Status
use libieee.Common.{
  Bool, List, Option, [], false, if◌then◌else◌, ltb, meets, none, not, pos, replicate, some, suc,
  to_byte, true, truthy, zero, ℕ, ℤ, ◌&&◌, ◌*◌, ◌++◌, ◌+◌, ◌-◌, ◌∪◌, ◌∷◌,
}
use libieee.Default.Link.{is_rev_idle, set_phase, signal}
use libieee.Port.Machine.{Phase}
use libieee.Port.Methods.{Pins, Received}
use libieee.Port.Run.{Run, call, gets, out_of_rounds, pure, skip, ◌>>=◌, ◌>>◌}

-- The variables of the loop; `rle` holds `rle_count` while a count waits for its byte.
pub record Reader : Type 0 where
  pub count : ℕ
  pub rle : Option ℕ
  pub stored : List ℕ

abbrev pub is_none : Option ℕ → Bool
is_none none = true
is_none (some _) = false

-- What the loop does with a byte that it has read and not acknowledged.
pub data Verdict : Type 0 where
  stop : Verdict
  accept : Reader → Verdict

-- A data byte: stored once, or as often as the count before it says.
unfoldable pub store : Reader → ℕ → Reader
store r byte = elim r.rle [
  | none ↦ record { count = r.count + 1; rle = none; stored = r.stored ++ byte ∷ [] }
  | some n ↦ record { count = r.count + n; rle = none; stored = r.stored ++ replicate n byte }
]

-- A command byte: a channel command ends the read, and so does a count that the buffer has no room
-- for.
unfoldable pub take_command : ℕ → Reader → ℕ → Verdict
take_command len r byte =
    if meets byte 0x80
    then stop
    else if ltb (len - r.count) (byte + 1)
    then stop
    else accept (record r { rle = some (byte + 1) })

-- `command` is false for the byte after a count, whatever the Busy line says.
unfoldable pub classify : ℕ → Reader → ℕ → ℕ → Verdict
unfolding store take_command
classify len r status byte =
    if is_none r.rle && not (meets status Status.busy)
    then take_command len r byte
    else accept (store r byte)

module _ {W : Type 0} (pin : Pins W) where
  -- `while (fn->wait_status (port, S1284_NACK, 0, &tv)) { }`
  unfoldable pub await_nack : ℕ → Run W (Unit {0})
  await_nack zero = λ _. out_of_rounds
  await_nack (suc k) = do
    r ← pin.wait_status Status.nack 0 signal
    if truthy r then await_nack k else skip

  -- Events 44 to 46. The byte counts if the peripheral lets go of nAck in time.
  unfoldable pub acknowledge : Run W Bool
  acknowledge = do
    pin.frob_control Control.nautofd Control.nautofd
    r ← pin.wait_status Status.nack Status.nack signal
    if truthy r then pure false else do pin.frob_control Control.nautofd 0; pure true

  -- Event 43, the Busy line unless a count waits, and the byte.
  unfoldable pub fetch : ℕ → Reader → Run W (ℕ × ℕ)
  unfolding await_nack
  fetch rounds r = do
    await_nack rounds
    status ← if is_none r.rle then pin.read_status else pure (pos 0)
    reg ← call pin.read_data
    pure (to_byte status, to_byte reg)

  -- The while loop, for at most so many bytes from the peripheral.
  unfoldable pub ecp_read_loop : ℕ → ℕ → ℕ → Reader → Run W Reader
  unfolding fetch acknowledge classify
  ecp_read_loop rounds zero len r = λ _. out_of_rounds
  ecp_read_loop rounds (suc k) len r = if not (ltb r.count len) then pure r else do
    (status, byte) ← fetch rounds r
    elim (classify len r status byte) [
      | stop ↦ pure r
      | accept r' ↦ do taken ← acknowledge; if taken then ecp_read_loop rounds k len r' else pure r
    ]

  -- Each byte of the buffer takes two bytes of the peripheral at most, a count and its byte.
  unfoldable pub default_ecp_read_data : ℕ → Run W ℤ → ℕ → ℕ → Run W Received
  unfolding ecp_read_loop
  default_ecp_read_data rounds ecp_fwd_to_rev flags len = do
    phase ← gets (λ p. p.current_phase)
    r ← if is_rev_idle phase then pure (pos 0) else ecp_fwd_to_rev
    if truthy r then pure (pos 0, []) else do
      set_phase Phase.rev_data
      pin.frob_control (Control.nautofd ∪ Control.nstrobe ∪ Control.ninit) Control.nstrobe
      end ← ecp_read_loop rounds (2 * len + 1) len (record { count = 0; rle = none; stored = [] })
      set_phase Phase.rev_idle
      pure (pos end.count, end.stored)

abbrev pub default_ecp_read_addr : {W : Type 0} → ℕ → ℕ → Run W Received
default_ecp_read_addr flags len = pure (E1284.notimpl, [])
