-- ===== src/Default/Compat/Printer.antt =====
-- default_compat_write of src/default.c, seen from the printer: which bytes it latches.
use libieee.Port.Control
use libieee.Port.Mode
use libieee.Port.Returns
use libieee.Common.{
  Bool, List, [], ap, append-nil, append_assoc, ap₂, arith, false, inl, inr, length, meets, pos,
  refl, suc, sym, take, true, truthy, ℕ, ℤ, ◌++◌, ◌+◌, ◌∙◌, ◌∷◌, ◌≡◌, ◌⊎◌,
}
use libieee.Default.Compat.{compat_loop, default_compat_write, strobe}
use libieee.Default.Link.{signal}
use libieee.Port.Clock.{Clock, TimeVal, delay, lookup_delay, timeval_strobe_delay}
use libieee.Port.Machine.{Machine}
use libieee.Port.Methods.{Pins}
use libieee.Port.Quiet.{Same}
use libieee.Port.Returns.{Returns, returns}
use libieee.Port.Run.{Run}

-- A printer on the line: the level of nStrobe, the data lines, and the bytes latched so far. A byte
-- is latched when nStrobe goes low. Waiting and sleeping change none of the three.
pub record Printer {W : Type 0} (clock : Clock W) (pin : Pins W) : Type 0 where
  pub strobe_high : W → Bool
  pub lines : W → ℕ
  pub latched : W → List ℕ
  pub wait_status :
      (s : Machine W) (mask val : ℕ)
      → Returns
          (λ _ t.
            Same s t
            × (strobe_high t.world ≡ strobe_high s.world)
            × (latched t.world ≡ latched s.world))
          (pin.wait_status mask val signal s)
  pub select :
      (w : W) (t : TimeVal)
      → (strobe_high (clock.select t w) ≡ strobe_high w)
        × (lines (clock.select t w) ≡ lines w)
        × (latched (clock.select t w) ≡ latched w)
  pub write_data :
      (s : Machine W) (byte : ℕ)
      → Returns
          (λ _ t.
            Same s t
            × (strobe_high t.world ≡ strobe_high s.world)
            × (lines t.world ≡ byte)
            × (latched t.world ≡ latched s.world))
          (pin.write_data byte s)
  pub lower :
      (s : Machine W) (reg : ℕ)
      → meets reg Control.nstrobe ≡ false
      → strobe_high s.world ≡ true
      → Returns
          (λ _ t. Same s t × (latched t.world ≡ latched s.world ++ lines s.world ∷ []))
          (pin.write_control reg s)
  pub raise :
      (s : Machine W) (reg : ℕ)
      → meets reg Control.nstrobe ≡ true
      → Returns
          (λ _ t. Same s t × (strobe_high t.world ≡ true) × (latched t.world ≡ latched s.world))
          (pin.write_control reg s)

module _ {W : Type 0} {clock : Clock W} {pin : Pins W} (printer : Printer clock pin) where
  -- The end of a write from machine `s`: the count is that of the bytes latched, in the buffer's
  -- order and from its start, and either that is all of them or the link has been terminated.
  pub record Written (buffer : List ℕ) (s : Machine W) (count : ℕ) (r : ℤ) (t : Machine W)
      : Type 0 where
    pub done : ℕ
    pub result : r ≡ pos (count + done)
    pub bytes : printer.latched t.world ≡ printer.latched s.world ++ take done buffer
    pub ended : (done ≡ length buffer) ⊎ (t.port.current_mode ≡ Mode.compat)

  strobe-latched :
      (byte : ℕ) (s : Machine W)
      → printer.strobe_high s.world ≡ true
      → Returns
          (λ _ t.
            (printer.strobe_high t.world ≡ true)
            × (printer.latched t.world ≡ printer.latched s.world ++ byte ∷ []))
          (strobe clock pin byte s)
  unfolding strobe delay
  strobe-latched byte s high =
      let tv = lookup_delay timeval_strobe_delay in
      Returns.bind (printer.write_data _ byte) λ _ t e.
        Returns.bind (printer.lower t _ refl (e.1 ∙ (printer.select s.world tv).0 ∙ high)) λ _ u f.
          Returns.bind (printer.raise _ _ refl) λ _ v g. returns (
            (printer.select v.world tv).0 ∙ g.1,
            (printer.select v.world tv).2
                ∙ g.2
                ∙ (printer.select u.world tv).2
                ∙ f.1
                ∙ ap₂ (λ (xs : List ℕ) (x : ℕ). xs ++ x ∷ []) (e.3 ∙ (printer.select s.world tv).2)
                    e.2,
          )

  module _ {terminate : Run W (Unit {0})}
      (ends : (s : Machine W)
        → Returns
            (λ _ t.
              (t.port.current_mode ≡ Mode.compat)
              × (printer.latched t.world ≡ printer.latched s.world))
            (terminate s)) where
    compat_loop-Written :
        (buffer : List ℕ) (count : ℕ) (s : Machine W)
        → printer.strobe_high s.world ≡ true
        → Returns (Written buffer s count) (compat_loop clock pin terminate buffer count s)
    unfolding compat_loop
    compat_loop-Written [] count s high = returns (record {
      done = 0;
      result = ap pos (omega arith);
      bytes = sym (append-nil (printer.latched s.world));
      ended = inl refl;
    })
    compat_loop-Written (byte ∷ rest) count s high =
        Returns.bind (printer.wait_status s _ _) λ r t e.
          Returns.branch (truthy r) _ _ t
            (λ _. Returns.bind (ends t) λ _ u f. returns (record {
              done = 0;
              result = ap pos (omega arith);
              bytes = f.1 ∙ e.2 ∙ sym (append-nil (printer.latched s.world));
              ended = inr f.0;
            }))
            λ _. Returns.bind (strobe-latched byte t (e.1 ∙ high)) λ _ u f.
              Returns.mono (compat_loop-Written rest (count + 1) u f.0) λ r v w. record {
                done = suc w.done;
                result = w.result ∙ ap pos (omega arith);
                bytes =
                    w.bytes
                    ∙ ap (λ (xs : List ℕ). xs ++ take w.done rest)
                        (f.1 ∙ ap (λ (xs : List ℕ). xs ++ byte ∷ []) e.2)
                    ∙ append_assoc (printer.latched s.world) (byte ∷ []) (take w.done rest);
                ended = elim w.ended [ inl all ↦ inl (ap suc all) | inr stopped ↦ inr stopped ];
              }

    -- A write in compatibility mode returns the number of bytes that the printer has latched,
    -- which are the bytes at the start of the buffer, in order and each once; they are all of
    -- its bytes, or the link has been terminated and is in compatibility mode. The printer
    -- latches the data lines when nStrobe goes low, nStrobe is high at first, and the
    -- termination latches nothing. Where the printer latches none, the result is 0 and no
    -- error.
    pub compat_write-Written :
        (flags : ℕ) (buffer : List ℕ) (s : Machine W)
        → printer.strobe_high s.world ≡ true
        → Returns (Written buffer s 0) (default_compat_write clock pin terminate flags buffer s)
    unfolding default_compat_write
    compat_write-Written flags buffer s high = compat_loop-Written buffer 0 s high
