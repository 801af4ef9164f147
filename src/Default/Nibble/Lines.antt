-- ===== src/Default/Nibble/Lines.antt =====
-- The status lines of a nibble transfer, as default_nibble_read of src/default.c reads them.
use libieee.Port.Status
use libieee.Common.{
  ==_iff, Bool, Bool-cases, arith, false, inl, inr, pos, refl, suc, true, zero, ℕ, ℤ, ◌%◌, ◌&&◌,
  ◌*◌, ◌+◌, ◌/◌, ◌<◌, ◌==◌, ◌≡◌,
}
use libieee.Default.Nibble.{high_nibble, join, low_nibble}

-- The status lines that carry a nibble: its three low bits on nFault, Select and PError, its top
-- bit on Busy, beside the level of nAck.
abbrev pub lines_of : (nibble ack : ℕ) → ℕ
lines_of nibble ack = nibble % 8 * 8 + ack * Status.nack + nibble / 8 * Status.busy

-- A test that holds at every number below `n`.
abbrev all_below : ℕ → (ℕ → Bool) → Bool
all_below zero p = true
all_below (suc n) p = p n && all_below n p

all_below-lt : (n : ℕ) (p : ℕ → Bool) → all_below n p ≡ true → (k : ℕ) → k < n → p k ≡ true
all_below-lt zero p h k lt = absurd (omega arith)
all_below-lt (suc n) p h k lt = elim (Bool-cases (p n)) [
  | inl holds ↦ elim (Bool-cases (k == n)) [
    | inl here ↦ rw ((==_iff k n).0 here) holds
    | inr below ↦ all_below-lt n p (rw holds at h) k (ground (arith, below))
  ]
  | inr fails ↦ absurd (no_case (rw fails at h))
]
  where
    no_case : false ≡ true → ⊥
    no_case e = cc

abbrev reads_back : (ℤ → ℕ) → ℕ → ℕ → Bool
reads_back read ack nibble = read (pos (lines_of nibble ack)) == nibble

low_nibble-lines_of :
    (nibble ack : ℕ) → nibble < 16 → ack < 2 → low_nibble (pos (lines_of nibble ack)) ≡ nibble
unfolding low_nibble
low_nibble-lines_of nibble zero h k =
    (==_iff (low_nibble (pos (lines_of nibble 0))) nibble).0
      (all_below-lt 16 (reads_back low_nibble 0) refl nibble h)
low_nibble-lines_of nibble (suc zero) h k =
    (==_iff (low_nibble (pos (lines_of nibble 1))) nibble).0
      (all_below-lt 16 (reads_back low_nibble 1) refl nibble h)
low_nibble-lines_of nibble (suc (suc n)) h k = absurd (omega arith)

high_nibble-lines_of :
    (nibble ack : ℕ) → nibble < 16 → ack < 2 → high_nibble (pos (lines_of nibble ack)) ≡ nibble
unfolding high_nibble
high_nibble-lines_of nibble zero h k =
    (==_iff (high_nibble (pos (lines_of nibble 0))) nibble).0
      (all_below-lt 16 (reads_back high_nibble 0) refl nibble h)
high_nibble-lines_of nibble (suc zero) h k =
    (==_iff (high_nibble (pos (lines_of nibble 1))) nibble).0
      (all_below-lt 16 (reads_back high_nibble 1) refl nibble h)
high_nibble-lines_of nibble (suc (suc n)) h k = absurd (omega arith)

-- A byte that the peripheral shows on the status lines as two nibbles, the low one first, is read
-- as that byte, whatever the level of nAck at either reading.
pub join-lines_of :
    (byte ack ack' : ℕ)
    → byte < 256
    → ack < 2
    → ack' < 2
    → join
        (high_nibble (pos (lines_of (byte / 16) ack)))
        (low_nibble (pos (lines_of (byte % 16) ack')))
      ≡ byte
unfolding join
join-lines_of byte ack ack' h k l =
    rw (high_nibble-lines_of (byte / 16) ack (omega arith) k)
      (rw (low_nibble-lines_of (byte % 16) ack' (omega arith) l) (omega arith))
