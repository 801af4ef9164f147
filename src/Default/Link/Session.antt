-- ===== src/Default/Link/Session.antt =====
-- The session that the operations of src/default.c leave behind, on every branch.
use libieee.Port.E1284
use libieee.Port.Mode
use libieee.Port.Returns
use libieee.Port.Status
use libieee.Common.{
  ==_iff, Bool-cases, arith, false, if◌then◌else◌, inl, inr, meets, not, refl, sym, to_byte, true,
  truthy, ℕ, ℤ, ◌==◌, ◌∙◌, ◌∩◌, ◌≡◌, ◌⊎◌,
}
use libieee.Default.Link.{
  abort, answer, default_ecp_fwd_to_rev, default_ecp_rev_to_fwd, default_negotiate,
  default_terminate, finish_termination, handshake, is_rev_idle, request, set_mode, set_up_ecp,
}
use libieee.Port.Clock.{Clock}
use libieee.Port.Machine.{Machine, Phase}
use libieee.Port.Methods.{Pins}
use libieee.Port.Quiet.{
  Keeps, Keeps-bind, QuietData, QuietPins, Same-mode, Same-phase, Same-refl, Waits, delay-Keeps,
}
use libieee.Port.Returns.{Returns, returns}
use libieee.Port.Run.{Run, ◌>>◌}

-- A terminated link is in compatibility mode.
abbrev pub Terminates : {W : Type 0} → Run W (Unit {0}) → Type 0
Terminates {W} terminate =
    (s : Machine W) → Returns (λ _ t. t.port.current_mode ≡ Mode.compat) (terminate s)

-- The result of turning an ECP link round: the phase asked for, or an error and a direction that is
-- not known. The mode stays.
abbrev pub Turned : {W : Type 0} → Machine W → Phase → ℤ → Machine W → Type 0
Turned s phase r t =
    (t.port.current_mode ≡ s.port.current_mode)
    × (((truthy r ≡ false) × (t.port.current_phase ≡ phase))
        ⊎ ((truthy r ≡ true) × (t.port.current_phase ≡ Phase.ecp_dir_unknown)))

-- The result of a negotiation to `mode`: the mode, or an error and compatibility mode.
abbrev pub Negotiated : {W : Type 0} → ℕ → ℤ → Machine W → Type 0
Negotiated mode ret t =
    ((ret ≡ E1284.ok) × (t.port.current_mode ≡ mode))
    ⊎ (((ret ≡ E1284.rejected) ⊎ (ret ≡ E1284.negfailed)) × (t.port.current_mode ≡ Mode.compat))

module _ {W : Type 0} {pin : Pins W} (quiet : QuietPins pin) where
  pub finish_termination-Keeps : (s : Machine W) → Keeps s (finish_termination pin s)
  unfolding finish_termination
  finish_termination-Keeps s = Keeps-bind (quiet.wait_status s _ _) λ r t.
      Returns.branch (truthy r) _ _ _ (λ _. returns (Same-refl t))
        λ _. Keeps-bind (quiet.write_control t _) λ _ u. Keeps-bind (quiet.wait_status u _ _) λ r v.
          Returns.branch (truthy r) _ _ _ (λ _. returns (Same-refl v)) λ _. quiet.write_control v _

  abort-Negotiated :
      {terminate : Run W (Unit {0})} {mode : ℕ} (ret : ℤ)
      → Terminates terminate
      → (ret ≡ E1284.rejected) ⊎ (ret ≡ E1284.negfailed)
      → (s : Machine W) → Returns (Negotiated mode) (abort pin terminate ret s)
  unfolding abort
  abort-Negotiated ret ends why s = Returns.bind (ends s) λ _ t e. returns (inr (why, e))

  abort-compat :
      {terminate : Run W (Unit {0})}
      → Terminates terminate
      → (mode : ℕ) → (mode == Mode.compat) ≡ true
      → (s : Machine W) → Returns (Negotiated mode) (abort pin terminate E1284.ok s)
  unfolding abort
  abort-compat ends mode e s =
      Returns.bind (ends s) λ _ t f. returns (inl (refl, f ∙ sym ((==_iff mode _).0 e)))

  module _ {terminate : Run W (Unit {0})} (ends : Terminates terminate) (mode : ℕ) where
    set_up_ecp-Negotiated :
        (s : Machine W)
        → s.port.current_mode ≡ mode
        → Returns (Negotiated mode) (set_up_ecp pin terminate s)
    unfolding set_up_ecp
    set_up_ecp-Negotiated s e = Returns.bind (quiet.frob_control s _ _) λ _ t p.
        Returns.bind (quiet.wait_status t _ _) λ r u q.
          Returns.branch (truthy r) _ _ _ (λ _. abort-Negotiated _ ends (inr refl) u)
            λ _. returns (inl (refl, Same-mode q ∙ Same-mode p ∙ e))

    answer-Negotiated :
        (m : ℕ) (s : Machine W) → Returns (Negotiated mode) (answer pin terminate mode m s)
    unfolding answer
    answer-Negotiated m s = Returns.bind (quiet.read_status _) λ status t _.
        Returns.branch
          (not (to_byte status ∩ Status.select == (if mode == 0 then 0 else Status.select))) _ _ _
          (λ _. abort-Negotiated _ ends (inl refl) t)
          λ _.
            Returns.branch (meets m Mode.ecp) _ _ _ (λ _. set_up_ecp-Negotiated _ refl)
              λ _. returns (inl (refl, refl))

    handshake-Negotiated :
        (clock : Clock W) (m : ℕ) (s : Machine W)
        → Returns (Negotiated mode) (handshake pin clock terminate mode m s)
    unfolding handshake
    handshake-Negotiated clock m s = Returns.bind (quiet.write_data s _) λ _ s _.
        Returns.bind (quiet.frob_control s _ _) λ _ s _.
          Returns.bind (quiet.wait_status s _ _) λ r s _.
            Returns.branch (truthy r) _ _ _ (λ _. abort-Negotiated _ ends (inr refl) s)
              λ _. Returns.bind (quiet.frob_control s _ _) λ _ s _.
                Returns.bind (delay-Keeps clock _ s) λ _ s _.
                  Returns.bind (quiet.frob_control s _ _) λ _ s _.
                    Returns.bind (quiet.wait_status s _ _) λ r s _.
                      Returns.branch (truthy r) _ _ _ (λ _. abort-Negotiated _ ends (inr refl) s)
                        λ _. answer-Negotiated m s

  -- A negotiation returns on every branch, either with success and the port in the mode asked for,
  -- or with "rejected" or "negotiation failed" and the port back in compatibility mode, if the
  -- pin-level methods return and leave the session alone and the termination ends in
  -- compatibility mode.
  pub negotiate-Negotiated :
      {terminate : Run W (Unit {0})}
      → Terminates terminate
      → (clock : Clock W) (mode : ℕ) (s : Machine W)
      → Returns (Negotiated mode) (default_negotiate pin clock terminate mode s)
  unfolding default_negotiate
  negotiate-Negotiated ends clock mode s =
      Returns.branch (mode == s.port.current_mode) _ _ _
        (λ e. returns (inl (refl, sym ((==_iff mode _).0 e))))
        λ _.
          Returns.branch (mode == Mode.compat) _ _ _ (λ e. abort-compat ends mode e s)
            λ _. handshake-Negotiated ends mode clock (request mode) s

  -- A termination returns on every branch, whether the peripheral answers or not, with the port in
  -- compatibility mode, if the pin-level methods return and leave the session alone and the
  -- function that turns the link round returns. Unless the link was idle in the reverse direction,
  -- the phase is left as it was.
  pub terminate-mode :
      {turn : Run W ℤ}
      → ((s : Machine W) → Returns (λ _ _. Unit {0}) (turn s))
      → (s : Machine W)
      → Returns
          (λ _ t.
            (t.port.current_mode ≡ Mode.compat)
            × ((is_rev_idle s.port.current_phase ≡ true)
                ⊎ (t.port.current_phase ≡ s.port.current_phase)))
          (default_terminate pin turn s)
  unfolding default_terminate
  terminate-mode {turn} turns s =
      Returns.branch' (is_rev_idle s.port.current_phase) _ _ s _
        (λ back.
          Returns.bind (Returns.bind {Q = λ _ _. Unit {0}} (turns s) λ _ _ _. returns tt)
            λ _ t _. Returns.mono (finish t) λ _ u e. (e.0, inl back))
        λ _. Returns.mono (finish s) λ _ t e. (e.0, inr e.1)
    where
      finish :
          (t : Machine W)
          → Returns
              (λ _ u.
                (u.port.current_mode ≡ Mode.compat) × (u.port.current_phase ≡ t.port.current_phase))
              ((do pin.write_control 7; set_mode Mode.compat; finish_termination pin) t)
      finish t = Returns.bind (quiet.write_control t _) λ _ u e.
          Returns.mono (finish_termination-Keeps _)
            λ _ v f. (Same-mode f, Same-phase f ∙ Same-phase e)

module _ {W : Type 0} {pin : Pins W} (quiet : QuietPins pin) (line : QuietData pin) where
  -- To the forward direction.
  pub rev_to_fwd-Turned :
      (s : Machine W) → Returns (Turned s Phase.fwd_idle) (default_ecp_rev_to_fwd pin s)
  unfolding default_ecp_rev_to_fwd
  rev_to_fwd-Turned s = Returns.bind (quiet.frob_control s _ _) λ _ t e.
      Returns.bind (quiet.wait_status t _ _) λ r u f.
        Returns.branch' (truthy r) _ _ u _
          (λ failed. returns (Same-mode f ∙ Same-mode e, inr (failed, refl)))
          λ worked.
            Returns.bind
              {P = λ _ v.
                (v.port.current_mode ≡ u.port.current_mode)
                × (v.port.current_phase ≡ Phase.fwd_idle)}
              (Returns.bind (line.data_dir u 0) λ _ v g. returns (Same-mode g, refl))
              λ _ v g. returns (g.0 ∙ Same-mode f ∙ Same-mode e, inl (worked, g.1))

  -- To the reverse direction.
  pub fwd_to_rev-Turned :
      (clock : Clock W) (rounds : ℕ)
      → Waits clock rounds 5
      → (s : Machine W)
      → Returns (Turned s Phase.rev_idle) (default_ecp_fwd_to_rev pin clock rounds s)
  unfolding default_ecp_fwd_to_rev
  fwd_to_rev-Turned clock rounds waits s = Returns.bind (quiet.frob_control s _ _) λ _ t e.
      Returns.bind (line.data_dir t 1) λ _ u f. Returns.bind (waits u 5 (omega arith)) λ _ v g.
        Returns.bind (quiet.frob_control v _ _) λ _ w h.
          Returns.bind (quiet.wait_status w _ _) λ r x i.
            let kept = Same-mode i ∙ Same-mode h ∙ Same-mode g ∙ Same-mode f ∙ Same-mode e in
            elim (Bool-cases (truthy r)) [
              | inl failed ↦ returns (kept, inr (failed, rw failed))
              | inr worked ↦ returns (kept, inl (worked, rw worked))
            ]

  -- Turning an ECP link to either direction returns, with the link idle in that direction on success,
  -- or with an error and the direction marked as unknown; the mode is kept. The pin-level methods
  -- return, leave the session alone, and can turn the data lines, and the clock lets a delay of five
  -- microseconds pass.
  pub turns-Turned :
      (clock : Clock W) (rounds : ℕ)
      → Waits clock rounds 5
      → (s : Machine W)
      → Returns (Turned s Phase.fwd_idle) (default_ecp_rev_to_fwd pin s)
        × Returns (Turned s Phase.rev_idle) (default_ecp_fwd_to_rev pin clock rounds s)
  turns-Turned clock rounds waits s = (rev_to_fwd-Turned s, fwd_to_rev-Turned clock rounds waits s)
