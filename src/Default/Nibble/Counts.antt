-- ===== src/Default/Nibble/Counts.antt =====
-- What default_nibble_read of src/default.c counts and stores.
use libieee.Port.Control
use libieee.Port.Mode
use libieee.Port.Returns
use libieee.Port.Status
use libieee.Common.{
  List, [], ap, arith, if◌then◌else◌, inl, inr, length, length-append, meets, none, pos, refl, some,
  suc, to_byte, truthy, zero, ℕ, ◌%◌, ◌++◌, ◌+◌, ◌==◌, ◌∙◌, ◌∷◌, ◌≡◌, ◌≤◌, ◌⊎◌,
}
use libieee.Default.Link.Session.{Terminates}
use libieee.Default.Nibble.{
  default_nibble_read, fail_nibble, high_nibble, join, low_nibble, nibble_loop, read_nibble,
}
use libieee.Port.Machine.{Machine}
use libieee.Port.Methods.{Pins, Received}
use libieee.Port.Quiet.{Keeps, Keeps-bind, QuietPins, Same-mode, Same-refl}
use libieee.Port.Returns.{Returns, returns}
use libieee.Port.Run.{Run, pure, ◌>>=◌, ◌>>◌}

module _ {W : Type 0} {pin : Pins W} (quiet : QuietPins pin) where
  pub read_nibble-Keeps : (s : Machine W) → Keeps s (read_nibble pin s)
  unfolding read_nibble
  read_nibble-Keeps s = Keeps-bind (quiet.write_control s _) λ _ t.
      Keeps-bind (quiet.wait_status t _ _) λ r u.
        Returns.branch (truthy r) _ _ _ (λ _. returns (Same-refl u))
          λ _. Keeps-bind (quiet.read_status u) λ status v.
            Keeps-bind (quiet.write_control v _) λ _ w. Keeps-bind (quiet.wait_status w _ _) λ r x.
              Returns.branch (truthy r) _ _ _ (λ _. returns (Same-refl x))
                λ _. returns (Same-refl x)

  module _ {terminate : Run W (Unit {0})} (ends : Terminates terminate) where
    -- The end of a read from a machine in mode `mode`: it reports the whole length in the mode that
    -- the link was in, or what it has stored, in compatibility mode.
    pub record Delivered (len mode : ℕ) (got : Received) (t : Machine W) : Type 0 where
      pub fits : length (got.1) ≤ len
      pub verdict :
          ((got.0 ≡ pos len) × (t.port.current_mode ≡ mode))
          ⊎ ((got.0 ≡ pos (length (got.1))) × (t.port.current_mode ≡ Mode.compat))

    fail_nibble-Delivered :
        (len mode count : ℕ) (stored : List ℕ) (s : Machine W)
        → count ≡ length stored
        → count ≤ len
        → Returns (Delivered len mode) (fail_nibble pin terminate count stored s)
    unfolding fail_nibble
    fail_nibble-Delivered len mode count stored s e h =
        Returns.bind (ends s)
          λ _ t f. returns (record { fits = omega (arith, e, h); verdict = inr (ap pos e, f) })

    -- A round of the loop after the question for more data, if the rounds after it deliver.
    asked-Delivered :
        (len mode n count : ℕ) (stored : List ℕ) (status : ℕ) (s : Machine W)
        → count ≡ length stored
        → count ≤ len
        → s.port.current_mode ≡ mode
        → ((byte : ℕ) (t : Machine W)
            → t.port.current_mode ≡ mode
            → Returns
                (Delivered len mode)
                (nibble_loop pin terminate len n (count + 1) (stored ++ byte ∷ []) t))
        → Returns (Delivered len mode) (
            (if meets status Status.nfault
                then (do pin.frob_control Control.nautofd 0; pure (pos len, stored))
                else do
                  low ← read_nibble pin
                  elim low [
                    | none ↦ fail_nibble pin terminate count stored
                    | some low ↦ read_nibble pin >>= elim [
                      | none ↦ fail_nibble pin terminate count stored
                      | some high ↦
                          nibble_loop pin terminate len n
                            (count + 1)
                            (stored ++ join (high_nibble high) (low_nibble low) ∷ [])
                    ]
                  ])
              s)
    asked-Delivered len mode n count stored status s e h m goes_on =
        Returns.branch (meets status Status.nfault) _ _ s
          (λ _. Returns.bind (quiet.frob_control s _ _) λ _ u f.
            returns (record { fits = omega (arith, e, h); verdict = inl (refl, Same-mode f ∙ m) }))
          λ _. Returns.bind (read_nibble-Keeps s) λ low u f.
            Returns.optional low _ _ u (fail_nibble-Delivered len mode count stored u e h) λ low.
              Returns.bind (read_nibble-Keeps u) λ high v g.
                Returns.optional high _ _ v (fail_nibble-Delivered len mode count stored v e h)
                  λ high. goes_on _ v (Same-mode g ∙ Same-mode f ∙ m)

    nibble_loop-Delivered :
        (len mode n count : ℕ) (stored : List ℕ) (s : Machine W)
        → count ≡ length stored
        → count + n ≡ len
        → s.port.current_mode ≡ mode
        → Returns (Delivered len mode) (nibble_loop pin terminate len n count stored s)
    unfolding nibble_loop
    nibble_loop-Delivered len mode zero count stored s e h m =
        returns (record { fits = omega (arith, e, h); verdict = inl (refl, m) })
    nibble_loop-Delivered len mode (suc n) count stored s e h m =
        let goes_on : (byte : ℕ) (t : Machine W)
            → t.port.current_mode ≡ mode
            → Returns (Delivered len mode)
                (nibble_loop pin terminate len n (count + 1) (stored ++ byte ∷ []) t) =
          λ byte t m'.
            nibble_loop-Delivered len mode n (count + 1) (stored ++ byte ∷ []) t
              (omega (arith, e, length-append stored (byte ∷ []))) (omega (arith, h)) m' in
        Returns.branch' (count % 2 == 0) _ _ s _
          (λ _. Returns.bind (quiet.read_status s) λ status t f.
            asked-Delivered len mode n count stored (to_byte status) t e (omega (arith, h))
              (Same-mode f ∙ m) goes_on)
          λ _. asked-Delivered len mode n count stored 0 s e (omega (arith, h)) m goes_on

    -- A nibble read returns, and stores no more bytes than the buffer holds. Either it reports
    -- the whole length, though fewer bytes may be stored, in the mode that the link was in, or
    -- it reports the bytes stored, in compatibility mode; if the pin-level methods return and
    -- leave the session alone and the termination ends in compatibility mode. Where the time is
    -- up before the first byte is stored, the result is 0 and no error.
    pub nibble_read-Delivered :
        (flags len : ℕ) (s : Machine W)
        → Returns
            (Delivered len s.port.current_mode)
            (default_nibble_read pin terminate flags len s)
    unfolding default_nibble_read
    nibble_read-Delivered flags len s =
        nibble_loop-Delivered len s.port.current_mode len 0 [] s refl (omega arith) refl
