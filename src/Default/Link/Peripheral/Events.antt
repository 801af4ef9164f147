-- ===== src/Default/Link/Peripheral/Events.antt =====
-- default_negotiate of src/default.c against the peripheral, event by event.
use libieee.Port.Control
use libieee.Port.Mode
use libieee.Port.Returns
use libieee.Port.Status
use libieee.Common.{
  Bool, Bool-cases, ap, arith, complement, false, if◌then◌else◌, inl, inr, meets, not, refl, sym,
  to_byte, true, ℕ, ◌%◌, ◌&&◌, ◌==◌, ◌∙◌, ◌∩◌, ◌∪◌, ◌≡◌, ◌⊖◌,
}
use libieee.Common.Bits.{bit, bit-bit_and, bit_laws, eq_of_bits, unlike}
use libieee.Default.Link.{abort, answer, default_negotiate, handshake, request, set_up_ecp}
use libieee.Default.Link.Peripheral.{
  Answered, Stage, Wired, Wires, after_1, after_3, after_31, after_6, before_1, frob_wires, serves,
  shown, xflag,
}
use libieee.Default.Link.Session.{Terminates}
use libieee.Port.Clock.{Clock, delay}
use libieee.Port.Machine.{Machine}
use libieee.Port.Methods.{Pins}
use libieee.Port.Quiet.{Same-mode}
use libieee.Port.Returns.{Returns, returns}
use libieee.Port.Run.{Run}

-- One bit of the control lines after all four have been written.
written_bit : (x v p f : Bool) → (p && f) ≡ p → (v && p) ≡ v → (unlike (x && unlike p f) v && p) ≡ v
written_bit x v p f h g = ground arith

all_written : (x : ℕ) → ((x ∩ complement Control.pins) ⊖ 0x0d) ∩ Control.pins ≡ 0x0d
all_written x = eq_of_bits _ _ λ k. simp bit_laws (
    written_bit (bit k x) (bit k 0x0d) (bit k Control.pins) (bit k 0xff)
      (sym (bit-bit_and k Control.pins 0xff)) (sym (bit-bit_and k 0x0d Control.pins)))

-- All four lines are written, so that event 1 happens.
begun :
    (w : Wires)
    → w.stage ≡ before_1
    → frob_wires Control.pins 0x0d w
      ≡ record { lines = 0x0d; data_lines = w.data_lines; stage = after_1 }
begun w h = rw (all_written w.lines) (rw h refl)

module _ (supports : ℕ → Bool) (e : ℕ) where
  perror_after_31 : shown supports (after_31 e) ∩ Status.perror ≡ Status.perror
  perror_after_31 = elim (Bool-cases (xflag supports e)) [ inl h ↦ rw h refl | inr h ↦ rw h refl ]

  nack_after_6 : shown supports (after_6 e) ∩ Status.nack ≡ Status.nack
  nack_after_6 = elim (Bool-cases (xflag supports e)) [ inl h ↦ rw h refl | inr h ↦ rw h refl ]

  -- The test of XFlag, by whether the request is served.
  xflag_tested :
      (mode : ℕ)
      → not (shown supports (after_6 e) ∩ Status.select == (if mode == 0 then 0 else Status.select))
        ≡ not (if mode == 0 then not (xflag supports e) else xflag supports e)
  xflag_tested mode = elim (Bool-cases (xflag supports e)) [
    | inl h ↦ elim (Bool-cases (mode == 0)) [ inl g ↦ rw h (rw g refl) | inr g ↦ rw h (rw g refl) ]
    | inr h ↦ elim (Bool-cases (mode == 0)) [ inl g ↦ rw h (rw g refl) | inr g ↦ rw h (rw g refl) ]
  ]

module _ {W : Type 0} {supports : ℕ → Bool} {clock : Clock W} {pin : Pins W} {wires : W → Wires}
    (wired : Wired wires supports clock pin) {terminate : Run W (Unit {0})}
    (ends : Terminates terminate) (mode : ℕ) where
  -- The wires between the events, with request `e` on the data lines.
  abbrev at_stage : ℕ → ℕ → Stage → Wires
  at_stage lines e stage = record { lines = lines; data_lines = e; stage = stage }

  set_up_ecp-Answered :
      (e : ℕ) (s : Machine W)
      → wires s.world ≡ at_stage 0x0f e (after_6 e)
      → s.port.current_mode ≡ mode
      → Returns (Answered true mode) (set_up_ecp pin terminate s)
  unfolding set_up_ecp
  set_up_ecp-Answered e s here in_mode = Returns.bind (wired.frob_control s _ _) λ _ t f.
      let now : wires t.world ≡ at_stage 0x0d e (after_31 e) =
        f.1 ∙ ap (frob_wires Control.nautofd 0) here in
      Returns.bind
        (wired.wait_status t Status.perror Status.perror (rw now (perror_after_31 supports e)))
        λ r u g.
          rw g.2
            (returns (record { result = refl; in_mode = Same-mode g.0 ∙ Same-mode f.0 ∙ in_mode }))

  answer-Answered :
      (m e : ℕ) (s : Machine W)
      → wires s.world ≡ at_stage 0x0f e (after_6 e)
      → Returns
          (Answered (if mode == 0 then not (xflag supports e) else xflag supports e) mode)
          (answer pin terminate mode m s)
  unfolding answer abort
  answer-Answered m e s here =
      let served = if mode == 0 then not (xflag supports e) else xflag supports e in
      Returns.bind
        (wired.read_status
          (record s { port = record (s.port) { current_mode = if mode == 0 then 1 else 0 } }))
        λ status t f.
          let verdict : not
                (to_byte status ∩ Status.select == (if mode == 0 then 0 else Status.select))
              ≡ not served =
            rw (f.2, here) (xflag_tested supports e mode) in
          rw verdict (elim (Bool-cases served) [
            | inl yes_served ↦ rw yes_served (
                Returns.branch (meets m Mode.ecp) _ _ _
                  (λ _. set_up_ecp-Answered e _ (f.1 ∙ here) refl)
                  λ _. returns (record { result = refl; in_mode = refl }))
            | inr not_served ↦
                rw not_served
                  (Returns.bind (ends t) λ _ u g. returns (record { result = refl; in_mode = g }))
          ])

  -- The wires after events 1 to 4, with the request on the data lines before them.
  handshake-Answered :
      (m : ℕ) (s : Machine W)
      → (wires s.world).stage ≡ before_1
      → Returns
          (Answered
            (if mode == 0 then not (xflag supports (m % 256)) else xflag supports (m % 256))
            mode)
          (handshake pin clock terminate mode m s)
  unfolding handshake delay
  handshake-Answered m s idle =
      let e = m % 256 in
      Returns.bind (wired.write_data s e) λ _ t f. Returns.bind (wired.frob_control t _ _) λ _ u g.
        let event_1 : wires u.world ≡ at_stage 0x0d e after_1 =
          g.1
          ∙ (begun (wires t.world) (ap (λ (x : Wires). x.stage) f.1 ∙ idle)
              ∙ ap (λ (x : Wires). at_stage 0x0d x.data_lines after_1) f.1) in
        Returns.bind (wired.wait_status u _ _ (rw event_1 refl)) λ r v h. rw h.2 (
          Returns.bind (wired.frob_control v _ _) λ _ w i.
            let event_3 : wires w.world ≡ at_stage 0x0c e (after_3 e) =
              i.1 ∙ ap (frob_wires Control.nstrobe 0) (h.1 ∙ event_1) in
            Returns.bind (wired.frob_control _ _ _) λ _ x j.
              let event_4 : wires x.world ≡ at_stage 0x0f e (after_6 e) =
                j.1
                ∙ ap
                    (frob_wires (Control.nstrobe ∪ Control.nautofd)
                      (Control.nstrobe ∪ Control.nautofd))
                    (wired.select w.world _ ∙ event_3) in
              Returns.bind (wired.wait_status x _ _ (rw event_4 (nack_after_6 supports e)))
                λ r y k. rw k.2 (answer-Answered m e y (k.1 ∙ event_4)))

  -- A negotiation with a peripheral that answers each event succeeds exactly with the modes that
  -- the peripheral serves, and leaves the port in the mode; with any other it returns "rejected",
  -- with the port in compatibility mode. The mode is not the one that the port is in, nor
  -- compatibility mode; the peripheral is idle before, waits for lines that are there succeed, and
  -- the termination ends in compatibility mode.
  pub negotiate-Answered :
      (s : Machine W)
      → (mode == s.port.current_mode) ≡ false
      → (mode == Mode.compat) ≡ false
      → (wires s.world).stage ≡ before_1
      → Returns
          (Answered (serves supports mode) mode)
          (default_negotiate pin clock terminate mode s)
  unfolding default_negotiate
  negotiate-Answered s other other_too idle =
      Returns.branch (mode == s.port.current_mode) _ _ s (λ same. absurd (cc))
        λ _.
          Returns.branch (mode == Mode.compat) _ _ s (λ same. absurd (cc))
            λ _. handshake-Answered (request mode) s idle
