-- ===== src/Default/Nibble.antt =====
-- default_nibble_read of src/default.c.
pub mod Counts
pub mod Lines
use libieee.Port.Control
use libieee.Port.Status
use libieee.Common.{
  List, Option, [], if◌then◌else◌, meets, none, pos, some, suc, to_byte, truthy, zero, ℕ, ℤ, ◌%◌,
  ◌*◌, ◌++◌, ◌+◌, ◌/◌, ◌==◌, ◌∩◌, ◌∪◌, ◌∷◌,
}
use libieee.Default.Link.{signal}
use libieee.Port.Methods.{Pins, Received}
use libieee.Port.Run.{Run, pure, ◌>>=◌, ◌>>◌}

abbrev idle : ℕ
idle = Control.nstrobe ∪ Control.ninit ∪ Control.nselectin

-- `low = read_status >> 3; low = (low & 0x07) + ((low & 0x10) >> 1)`
unfoldable pub low_nibble : ℤ → ℕ
low_nibble status = let st = to_byte status / 8 in (st ∩ 0x07) + (st ∩ 0x10) / 2

-- `high = read_status >> 3; high = (high & 0x07) | ((high & 0x10) >> 1)`
unfoldable pub high_nibble : ℤ → ℕ
high_nibble status = let st = to_byte status / 8 in (st ∩ 0x07) ∪ (st ∩ 0x10) / 2

-- `((high << 4) + low) & 0xff`
unfoldable pub join : ℕ → ℕ → ℕ
join high low = (high * 16 + low) % 256

module _ {W : Type 0} (pin : Pins W) where
  -- One nibble: nAutoFd low, wait for nAck low, read the status lines, nAutoFd high, wait for nAck
  -- high. `none` is the jump to `error`.
  unfoldable pub read_nibble : Run W (Option ℤ)
  read_nibble = do
    pin.write_control idle
    r ← pin.wait_status Status.nack 0 signal
    if truthy r then pure none else do
      status ← pin.read_status
      pin.write_control (idle ∪ Control.nautofd)
      r ← pin.wait_status Status.nack Status.nack signal
      if truthy r then pure none else pure (some status)

  unfoldable pub fail_nibble : Run W (Unit {0}) → ℕ → List ℕ → Run W Received
  fail_nibble terminate count stored = do terminate; pure (pos count, stored)

  -- The while loop, with `n` bytes of the buffer left and `count` stored.
  unfoldable pub nibble_loop : Run W (Unit {0}) → ℕ → ℕ → ℕ → List ℕ → Run W Received
  unfolding read_nibble fail_nibble
  nibble_loop terminate len zero count stored = pure (pos len, stored)
  nibble_loop terminate len (suc n) count stored = do
    status ← if count % 2 == 0 then pin.read_status else pure (pos 0)
    if meets (to_byte status) Status.nfault
        then (do pin.frob_control Control.nautofd 0; pure (pos len, stored))
        else do
          low ← read_nibble
          elim low [
            | none ↦ fail_nibble terminate count stored
            | some low ↦ read_nibble >>= elim [
              | none ↦ fail_nibble terminate count stored
              | some high ↦
                  nibble_loop terminate len n (count + 1)
                    (stored ++ join (high_nibble high) (low_nibble low) ∷ [])
            ]
          ]

  unfoldable pub default_nibble_read : Run W (Unit {0}) → ℕ → ℕ → Run W Received
  unfolding nibble_loop low_nibble high_nibble join
  default_nibble_read terminate flags len = nibble_loop terminate len len 0 []
