-- ===== src/Default/Stays.antt =====
-- What the operations of src/default.c leave of a port: its open, its count, its memory and its table
-- of methods.
use libieee.Port.Control
use libieee.Port.Mode
use libieee.Port.Returns
use libieee.Port.Status
use libieee.Common.{
  List, [], ap, if◌then◌else◌, meets, none, not, pos, refl, some, suc, to_byte, truthy, zero, ℕ, ℤ,
  ◌%◌, ◌++◌, ◌+◌, ◌==◌, ◌∙◌, ◌∩◌, ◌∷◌, ◌≡◌,
}
use libieee.Default.Link.{
  abort, answer, default_ecp_rev_to_fwd, default_negotiate, default_terminate, finish_termination,
  handshake, is_rev_idle, request, set_mode, set_up_ecp,
}
use libieee.Default.Link.Session.{finish_termination-Keeps}
use libieee.Default.Nibble.{
  default_nibble_read, fail_nibble, high_nibble, join, low_nibble, nibble_loop, read_nibble,
}
use libieee.Default.Nibble.Counts.{read_nibble-Keeps}
use libieee.Port.Clock.{Clock}
use libieee.Port.Life.{Lifetime, lifetime}
use libieee.Port.Machine.{Machine, Table}
use libieee.Port.Methods.{Pins}
use libieee.Port.Quiet.{Keeps, QuietData, QuietPins, Same, Session, delay-Keeps}
use libieee.Port.Returns.{Returns, returns}
use libieee.Port.Run.{Outcome, Run, and_then, pure, ◌>>=◌, ◌>>◌}

pub record Custody : Type 0 where
  pub life : Lifetime
  pub fn : Table

abbrev pub custody : {W : Type 0} → Machine W → Custody
custody s = record { life = lifetime s; fn = s.port.fn }

-- Run `r`, from machine `s`, returns and leaves them alone.
abbrev pub Stays : {W A : Type 0} → Machine W → Outcome W A → Type 0
Stays s r = Returns (λ _ t. custody t ≡ custody s) r

Same-custody : {W : Type 0} {s t : Machine W} → Same s t → custody t ≡ custody s
Same-custody e =
    ap
      (λ (x : Session). record {
        life = record { opened = x.opened; ref = x.ref; live = x.live };
        fn = x.fn;
      })
      e.same

module _ {W A B : Type 0} {s : Machine W} {r : Outcome W A} {k : A → Run W B} where
  via : Keeps s r → ((a : A) (t : Machine W) → Stays t (k a t)) → Stays s (and_then r k)
  via q next = Returns.bind q λ a t e. Returns.mono (next a t) λ b u f. f ∙ Same-custody e

module _ {W A B : Type 0} (s : Machine W) {r : Outcome W A} {k : A → Run W B} where
  after_step : Stays s r → ((a : A) (t : Machine W) → Stays t (k a t)) → Stays s (and_then r k)
  after_step q next = Returns.bind q λ a t e. Returns.mono (next a t) λ b u f. f ∙ e

module _ {W : Type 0} {pin : Pins W} (quiet : QuietPins pin) where
  pub rev_to_fwd-Stays : QuietData pin → (s : Machine W) → Stays s (default_ecp_rev_to_fwd pin s)
  unfolding default_ecp_rev_to_fwd
  rev_to_fwd-Stays line s = via (quiet.frob_control s _ _) λ _ t.
      via (quiet.wait_status t _ _) λ r u.
        Returns.branch' (truthy r) _ _ u _ (λ _. returns refl)
          λ _. after_step u (via (line.data_dir u 0) λ _ v. returns refl) λ _ w. returns refl

  pub terminate-Stays :
      {turn : Run W ℤ}
      → ((s : Machine W) → Stays s (turn s))
      → (s : Machine W) → Stays s (default_terminate pin turn s)
  unfolding default_terminate
  terminate-Stays {turn} turns s =
      Returns.branch' (is_rev_idle s.port.current_phase) _ _ s _
        (λ _. after_step s (after_step s (turns s) λ _ t. returns refl) λ _ t. finish t)
        λ _. finish s
    where
      finish :
          (t : Machine W)
          → Stays t ((do pin.write_control 7; set_mode Mode.compat; finish_termination pin) t)
      finish t =
          via (quiet.write_control t _)
            λ _ u. Returns.mono (finish_termination-Keeps quiet _) λ _ v f. Same-custody f

  module _ {terminate : Run W (Unit {0})} (ends : (s : Machine W) → Stays s (terminate s)) where
    abort-Stays : (ret : ℤ) (s : Machine W) → Stays s (abort pin terminate ret s)
    unfolding abort
    abort-Stays ret s = after_step s (ends s) λ _ t. returns refl

    set_up_ecp-Stays : (s : Machine W) → Stays s (set_up_ecp pin terminate s)
    unfolding set_up_ecp
    set_up_ecp-Stays s = via (quiet.frob_control s _ _) λ _ t.
        via (quiet.wait_status t _ _)
          λ r u. Returns.branch (truthy r) _ _ u (λ _. abort-Stays _ u) λ _. returns refl

    answer-Stays : (mode m : ℕ) (s : Machine W) → Stays s (answer pin terminate mode m s)
    unfolding answer
    answer-Stays mode m s = via (quiet.read_status _) λ status t.
        Returns.branch
          (not (to_byte status ∩ Status.select == (if mode == 0 then 0 else Status.select))) _ _ _
          (λ _. abort-Stays _ t)
          λ _. Returns.branch (meets m Mode.ecp) _ _ _ (λ _. set_up_ecp-Stays _) λ _. returns refl

    handshake-Stays :
        (clock : Clock W) (mode m : ℕ) (s : Machine W)
        → Stays s (handshake pin clock terminate mode m s)
    unfolding handshake
    handshake-Stays clock mode m s = via (quiet.write_data s _) λ _ s.
        via (quiet.frob_control s _ _) λ _ s. via (quiet.wait_status s _ _) λ r s.
          Returns.branch (truthy r) _ _ _ (λ _. abort-Stays _ s)
            λ _. via (quiet.frob_control s _ _) λ _ s. via (delay-Keeps clock _ s) λ _ s.
              via (quiet.frob_control s _ _) λ _ s. via (quiet.wait_status s _ _) λ r s.
                Returns.branch (truthy r) _ _ _ (λ _. abort-Stays _ s) λ _. answer-Stays mode m s

    pub negotiate-Stays :
        (clock : Clock W) (mode : ℕ) (s : Machine W)
        → Stays s (default_negotiate pin clock terminate mode s)
    unfolding default_negotiate
    negotiate-Stays clock mode s =
        Returns.branch (mode == s.port.current_mode) _ _ _ (λ _. returns refl)
          λ _.
            Returns.branch (mode == Mode.compat) _ _ _ (λ _. abort-Stays _ s)
              λ _. handshake-Stays clock mode (request mode) s

    fail_nibble-Stays :
        (count : ℕ) (stored : List ℕ) (s : Machine W)
        → Stays s (fail_nibble pin terminate count stored s)
    unfolding fail_nibble
    fail_nibble-Stays count stored s = after_step s (ends s) λ _ t. returns refl

    asked-Stays :
        (len n count : ℕ) (stored : List ℕ) (status : ℤ) (s : Machine W)
        → ((byte : ℕ) (t : Machine W)
            → Stays t (nibble_loop pin terminate len n (count + 1) (stored ++ byte ∷ []) t))
        → Stays s (
            (if meets (to_byte status) Status.nfault
                then (do pin.frob_control Control.nautofd 0; pure (pos len, stored))
                else do
                  low ← read_nibble pin
                  elim low [
                    | none ↦ fail_nibble pin terminate count stored
                    | some low ↦ read_nibble pin >>= elim [
                      | none ↦ fail_nibble pin terminate count stored
                      | some high ↦
                          nibble_loop pin terminate len n
                            (count + 1)
                            (stored ++ join (high_nibble high) (low_nibble low) ∷ [])
                    ]
                  ])
              s)
    asked-Stays len n count stored status s goes_on =
        Returns.branch (meets (to_byte status) Status.nfault) _ _ s
          (λ _. via (quiet.frob_control s _ _) λ _ u. returns refl)
          λ _. via (read_nibble-Keeps quiet s) λ low u.
            Returns.optional low _ _ u (fail_nibble-Stays count stored u) λ low.
              via (read_nibble-Keeps quiet u) λ high v.
                Returns.optional high _ _ v (fail_nibble-Stays count stored v) λ high. goes_on _ v

    nibble_loop-Stays :
        (len n count : ℕ) (stored : List ℕ) (s : Machine W)
        → Stays s (nibble_loop pin terminate len n count stored s)
    unfolding nibble_loop
    nibble_loop-Stays len zero count stored s = returns refl
    nibble_loop-Stays len (suc n) count stored s =
        let goes_on : (byte : ℕ) (t : Machine W)
            → Stays t (nibble_loop pin terminate len n (count + 1) (stored ++ byte ∷ []) t) =
          λ byte t. nibble_loop-Stays len n (count + 1) (stored ++ byte ∷ []) t in
        Returns.branch' (count % 2 == 0) _ _ s _
          (λ _.
            via (quiet.read_status s) λ status t. asked-Stays len n count stored status t goes_on)
          λ _. asked-Stays len n count stored (pos 0) s goes_on

    pub nibble_read-Stays :
        (flags len : ℕ) (s : Machine W) → Stays s (default_nibble_read pin terminate flags len s)
    unfolding default_nibble_read
    nibble_read-Stays flags len s = nibble_loop-Stays len len 0 [] s
