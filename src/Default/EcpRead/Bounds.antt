-- ===== src/Default/EcpRead/Bounds.antt =====
-- The buffer of default_ecp_read_data in src/default.c: what the read stores and counts, and that
-- its loop ends.
use libieee.Port.Control
use libieee.Port.Returns
use libieee.Port.Status
use libieee.Common.{
  Bool-cases, List, Option, [], ap, arith, false, inl, inr, length, length-append, length-replicate,
  ltb, meets, none, not, pos, refl, replicate, some, suc, true, truthy, zero, ℕ, ℤ, ◌*◌, ◌+◌, ◌-◌,
  ◌<◌, ◌∙◌, ◌∪◌, ◌∷◌, ◌≡◌, ◌≤◌, ◌⊎◌,
}
use libieee.Default.EcpRead.{
  Reader, Verdict, acknowledge, await_nack, classify, default_ecp_read_data, ecp_read_loop, fetch,
  is_none, store, take_command,
}
use libieee.Default.Link.{is_rev_idle, set_phase}
use libieee.Port.Machine.{Machine, Phase}
use libieee.Port.Methods.{Pins, Received}
use libieee.Port.Quiet.{
  Keeps, Keeps-bind, QuietData, QuietPins, Same, Same-mode, Same-refl, Same-trans,
}
use libieee.Port.Returns.{Returns, returns}
use libieee.Port.Run.{Run, pure, ◌>>=◌, ◌>>◌}

-- Rounds of the loop that are enough from a state of its variables: two for each byte that the
-- buffer has room for, one of them done while a count waits, and one to leave.
abbrev Room : (len k count : ℕ) → Option ℕ → Type 0
Room len k count none = 2 * len < k + 2 * count
Room len k count (some n) = (0 < n) × (count + n ≤ len) × (2 * len ≤ k + 2 * count)

-- The loop's variables with `k` rounds to go: the count is that of the bytes stored, the buffer
-- holds them, and the rounds are enough.
record Sound (len k : ℕ) (r : Reader) : Type 0 where
  counted : r.count ≡ length r.stored
  fits : r.count ≤ len
  room : Room len k r.count r.rle

-- The end of a read: the bytes counted are those stored, and no more than the buffer holds.
pub record Filled (len : ℕ) (count : ℕ) (stored : List ℕ) : Type 0 where
  pub counted : count ≡ length stored
  pub fits : count ≤ len

-- A byte taken leaves room for the next ones; a byte refused ends the read.
data Handled (len k : ℕ) (v : Verdict) : Type 0 where
  stopped : v ≡ Verdict.stop → Handled len k v
  went_on : (r : Reader) → v ≡ Verdict.accept r → Sound len k r → Handled len k v

no-Room : {len count : ℕ} (rle : Option ℕ) → Room len 0 count rle → count ≤ len → ⊥
no-Room none h fits = omega arith
no-Room (some n) h fits = omega (arith, h.0, h.1, h.2)

store-Sound :
    (len k count : ℕ) (rle : Option ℕ) (stored : List ℕ) (byte : ℕ)
    → count < len
    → Sound len (suc k) (record { count = count; rle = rle; stored = stored })
    → Sound len k (store (record { count = count; rle = rle; stored = stored }) byte)
unfolding store
store-Sound len k count none stored byte h s =
    let sum = length-append stored (byte ∷ []) in
    record {
      counted = omega (arith, sum, s.counted);
      fits = omega arith;
      room = omega (arith, s.room);
    }
store-Sound len k count (some n) stored byte h s =
    let sum = length-append stored (replicate n byte) in
    let many = length-replicate n byte in
    record {
      counted = omega (arith, sum, many, s.counted);
      fits = s.room.1;
      room = omega (arith, s.room.0, s.room.2);
    }

take_command-Handled :
    (len k count : ℕ) (stored : List ℕ) (byte : ℕ)
    → Sound len (suc k) (record { count = count; rle = none; stored = stored })
    → Handled len k (take_command len (record { count = count; rle = none; stored = stored }) byte)
unfolding take_command
take_command-Handled len k count stored byte s = elim (Bool-cases (meets byte 0x80)) [
  | inl channel ↦ stopped (rw channel refl)
  | inr counts ↦ elim (Bool-cases (ltb (len - count) (byte + 1))) [
    | inl long ↦ stopped (rw counts (rw long refl))
    | inr short ↦
        let fits : byte + 1 ≤ len - count = ground (arith, short) in
        went_on (record { count = count; rle = some (byte + 1); stored = stored })
          (rw counts (rw short refl))
          (record {
            counted = s.counted;
            fits = s.fits;
            room = (omega arith, omega (arith, fits, s.fits), omega (arith, s.room));
          })
  ]
]

classify-Handled :
    (len k count : ℕ) (rle : Option ℕ) (stored : List ℕ) (status byte : ℕ)
    → count < len
    → Sound len (suc k) (record { count = count; rle = rle; stored = stored })
    → Handled len k
        (classify len (record { count = count; rle = rle; stored = stored }) status byte)
unfolding classify
classify-Handled len k count none stored status byte h s =
    elim (Bool-cases (meets status Status.busy)) [
      | inl data_byte ↦ went_on _ (rw data_byte refl) (store-Sound len k count none stored byte h s)
      | inr command ↦ rw command (take_command-Handled len k count stored byte s)
    ]
classify-Handled len k count (some n) stored status byte h s =
    went_on _ refl (store-Sound len k count (some n) stored byte h s)

-- How a read into a buffer of `len` bytes ends, from machine `s`.
abbrev pub Reversed : {W : Type 0} → Machine W → ℕ → Received → Machine W → Type 0
Reversed s len got t =
    (t.port.current_mode ≡ s.port.current_mode)
    × (((is_rev_idle s.port.current_phase ≡ false)
          × (got.0 ≡ pos 0)
          × (got.1 ≡ [])
          × (t.port.current_phase ≡ Phase.ecp_dir_unknown))
        ⊎ ((got.0 ≡ pos (length got.1))
            × (length got.1 ≤ len)
            × (t.port.current_phase ≡ Phase.rev_idle)))

-- The peripheral has a byte ready within so many signal timeouts, whatever the machine.
abbrev pub Offers : {W : Type 0} → Pins W → ℕ → Type 0
Offers {W} pin rounds = (s : Machine W) → Keeps s (await_nack pin rounds s)

module _ {W : Type 0} {pin : Pins W} (quiet : QuietPins pin) (line : QuietData pin) where
  acknowledge-Keeps : (s : Machine W) → Keeps s (acknowledge pin s)
  unfolding acknowledge
  acknowledge-Keeps s = Keeps-bind (quiet.frob_control s _ _) λ _ t.
      Keeps-bind (quiet.wait_status t _ _) λ r u.
        Returns.branch (truthy r) _ _ _ (λ _. returns (Same-refl u))
          λ _. Keeps-bind (quiet.frob_control u _ _) λ _ v. returns (Same-refl v)

  module _ (rounds : ℕ) (offers : Offers pin rounds) where
    fetch-Keeps : (r : Reader) (s : Machine W) → Keeps s (fetch pin rounds r s)
    unfolding fetch
    fetch-Keeps r s = Keeps-bind (offers s) λ _ t.
        Returns.branch' (is_none r.rle) _ _ t _
          (λ _.
            Keeps-bind (quiet.read_status t)
              λ status u. Keeps-bind (line.read_data u) λ reg v. returns (Same-refl v))
          λ _. Keeps-bind (line.read_data t) λ reg v. returns (Same-refl v)

    -- The loop's variables when it ends, and the session, which it keeps.
    abbrev Ends : ℕ → Machine W → Reader → Machine W → Type 0
    Ends len s r t = Same s t × Filled len r.count r.stored

    ecp_read_loop-Ends :
        (k len : ℕ) (r : Reader) (s : Machine W)
        → Sound len k r
        → Returns (Ends len s) (ecp_read_loop pin rounds k len r s)
    unfolding ecp_read_loop
    ecp_read_loop-Ends zero len r s h = absurd (no-Room r.rle h.room h.fits)
    ecp_read_loop-Ends (suc k) len r s h =
        Returns.branch (not (ltb r.count len)) _ _ s
          (λ _. returns (Same-refl s, record { counted = h.counted; fits = h.fits }))
          λ more. Returns.bind (fetch-Keeps r s) λ a t e.
            elim (classify-Handled len k r.count r.rle r.stored a.0 a.1 (ground (arith, more)) h) [
              | stopped f ↦ rw f (returns (e, record { counted = h.counted; fits = h.fits }))
              | went_on r' f g ↦ rw f (
                  Returns.bind (acknowledge-Keeps t) λ taken u d.
                    Returns.branch taken _ _ u
                      (λ _.
                        Returns.mono (ecp_read_loop-Ends k len r' u g)
                          λ _ v w. (Same-trans (Same-trans e d) w.0, w.1))
                      λ _. returns (Same-trans e d, record { counted = h.counted; fits = h.fits }))
            ]

    -- A read of an ECP link returns, if the peripheral has a byte ready in time whenever the link is
    -- read, and turning the link round returns, keeps the mode, and marks the direction as unknown
    -- where it fails. The mode is the one that it was called in. The read gives the number of bytes
    -- that it has stored, which the buffer holds, and leaves the link idle in the reverse direction;
    -- or the link was not, could not be turned to it, and has an unknown direction, and the read
    -- gives 0.
    pub ecp_read_data-Filled :
        {turn : Run W ℤ}
        → ((s : Machine W)
            → Returns
                (λ r t.
                  (t.port.current_mode ≡ s.port.current_mode)
                  × (truthy r ≡ true → t.port.current_phase ≡ Phase.ecp_dir_unknown))
                (turn s))
        → (flags len : ℕ) (s : Machine W)
        → Returns (Reversed s len) (default_ecp_read_data pin rounds turn flags len s)
    unfolding default_ecp_read_data
    ecp_read_data-Filled {turn} turns flags len s =
        Returns.branch' (is_rev_idle s.port.current_phase) _ _ s _ (λ _. read s refl)
          λ other. Returns.bind (turns s) λ r t e.
            Returns.branch (truthy r) _ _ t
              (λ failed. returns (e.0, inl (other, refl, refl, e.1 failed))) λ _. read t e.0
      where
        read :
            (t : Machine W)
            → t.port.current_mode ≡ s.port.current_mode
            → Returns (Reversed s len) (
                (do
                  set_phase Phase.rev_data
                  pin.frob_control
                      (Control.nautofd ∪ Control.nstrobe ∪ Control.ninit)
                      Control.nstrobe
                  end ←
                      ecp_read_loop pin rounds
                        (2 * len + 1)
                        len
                        (record { count = 0; rle = none; stored = [] })
                  set_phase Phase.rev_idle
                  pure (pos end.count, end.stored))
                  t)
        read t e = Returns.bind (quiet.frob_control _ _ _) λ _ u f.
            Returns.bind
              (ecp_read_loop-Ends (2 * len + 1) len (record { count = 0; rle = none; stored = [] })
                u (record { counted = refl; fits = omega arith; room = omega arith }))
              λ r v g. returns (
                Same-mode g.0 ∙ Same-mode f ∙ e,
                inr (ap pos g.1.counted, rw g.1.counted at g.1.fits, refl),
              )
