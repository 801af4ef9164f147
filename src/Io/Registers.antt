-- ===== src/Io/Registers.antt =====
-- The control register of src/access_io.c: what read_control reports after a write, in terms of
-- the pins, whose levels are the register's bits with some of them inverted.
use libieee.Port.Control
use libieee.Port.E1284
use libieee.Port.Returns
use libieee.Common.{
  Bool, Bool-cases, ap, arith, complement, false, if◌then◌else◌, inl, inr, meets, pos, refl, suc,
  sym, zero, ℕ, ◌&&◌, ◌==◌, ◌∙◌, ◌∩◌, ◌≡◌, ◌⊖◌,
}
use libieee.Common.Bits.{bit, bit-bit_and, bit_laws, eq_of_bits, unlike}
use libieee.Io.{data_dir, frob_control, frobbed, raw_frob_control, read_control, write_control}
use libieee.Io.Session.{data_dir-Keeps, raw_frob_control-OnlyControl}
use libieee.Port.Host.{Host}
use libieee.Port.Machine.{Machine, Port}
use libieee.Port.Returns.{Returns, returns}
use libieee.Port.Run.{done, pure, ◌>>◌}

-- The pins that read_control reports for a value of the control register.
abbrev pub pins_of : ℕ → ℕ
pins_of ctr = (ctr ⊖ Control.inverted) ∩ Control.pins

-- "out ((in & ~mask) ^ val)", as include/ieee1284.h.in has it for ieee1284_frob_control.
abbrev pub frob_doc : ℕ → ℕ → ℕ → ℕ
frob_doc pins mask val = ((pins ∩ complement mask) ⊖ val) ∩ Control.pins

-- One bit of the law below: `k` of the masks' constants, `c m v` of the register and arguments.
-- `p` is the bit of the four pins, `f` that of 0xff and `i` that of the inverted pins.
frob_bit :
    (c m v p f i : Bool)
    → (p && f) ≡ p
    → (i && f) ≡ i
    → (unlike (unlike (c && unlike (m && p) f) (unlike (v && p) ((m && p) && i))) i && p)
      ≡ (unlike (((unlike c i) && p) && unlike m f) v && p)
frob_bit c m v p f i h g = ground arith

pub frob-pins_of :
    (ctr mask val : ℕ)
    → pins_of (frobbed ctr (mask ∩ Control.pins) (val ∩ Control.pins))
      ≡ frob_doc (pins_of ctr) mask val
unfolding frobbed
frob-pins_of ctr mask val = eq_of_bits _ _ λ k. simp bit_laws (
    frob_bit (bit k ctr) (bit k mask) (bit k val) (bit k Control.pins) (bit k 0xff)
      (bit k Control.inverted) (sym (bit-bit_and k Control.pins 0xff))
      (sym (bit-bit_and k Control.inverted 0xff)))

-- The same for a write of the four pins: they take the levels asked for.
write_bit :
    (c v p f i : Bool)
    → (p && f) ≡ p
    → (unlike (unlike (c && unlike p f) (unlike (v && p) (p && i))) i && p) ≡ (v && p)
write_bit c v p f i h = ground arith

pub write-pins_of :
    (ctr reg : ℕ) → pins_of (frobbed ctr Control.pins (reg ∩ Control.pins)) ≡ reg ∩ Control.pins
unfolding frobbed
write-pins_of ctr reg = eq_of_bits _ _ λ k. simp bit_laws (
    write_bit (bit k ctr) (bit k reg) (bit k Control.pins) (bit k 0xff) (bit k Control.inverted)
      (sym (bit-bit_and k Control.pins 0xff)))

-- The bit that turns the data lines round is none of the pins.
reverse_bit :
    (c d x p f i : Bool)
    → (p && f) ≡ p
    → (d && p) ≡ false
    → (x && p) ≡ false
    → (unlike (unlike (c && unlike d f) (unlike x (d && i))) i && p) ≡ (unlike c i && p)
reverse_bit c d x p f i h g e = ground arith

bit-zero : (k : ℕ) → bit k 0 ≡ false
unfolding bit
bit-zero zero = refl
bit-zero (suc k) = bit-zero k

reverse-pins_of :
    (ctr dir : ℕ) → dir ∩ Control.pins ≡ 0 → pins_of (frobbed ctr Control.reverse dir) ≡ pins_of ctr
unfolding frobbed
reverse-pins_of ctr dir h = eq_of_bits _ _ λ k. simp bit_laws (
    reverse_bit (bit k ctr) (bit k Control.reverse) (bit k dir) (bit k Control.pins) (bit k 0xff)
      (bit k Control.inverted) (sym (bit-bit_and k Control.pins 0xff))
      (sym (bit-bit_and k Control.reverse Control.pins) ∙ bit-zero k)
      (sym (bit-bit_and k dir Control.pins) ∙ ap (bit k) h ∙ bit-zero k))

module _ {W : Type 0} (host : Host W) where
  -- A change of direction leaves what read_control reports.
  data_dir-pins_of :
      (reverse : ℕ) (s : Machine W)
      → Returns (λ _ t. pins_of t.port.ctr ≡ pins_of s.port.ctr) (data_dir host reverse s)
  unfolding data_dir
  data_dir-pins_of reverse s =
      Returns.bind {k = λ _. pure E1284.ok}
        (raw_frob_control-OnlyControl host Control.reverse
          (if reverse == 0 then 0 else Control.reverse) s)
        λ _ t e. returns (
          ap (λ (p : Port). pins_of p.ctr) e.port
          ∙ reverse-pins_of s.port.ctr _ (direction reverse))
    where
      direction : (r : ℕ) → (if r == 0 then 0 else Control.reverse) ∩ Control.pins ≡ 0
      direction r = elim (Bool-cases (r == 0)) [ inl e ↦ rw e | inr e ↦ rw e ]

  -- The control register after a frob of the pins, and what read_control makes of it.
  frob-pins :
      (mask val : ℕ) (s : Machine W)
      → Returns
          (λ _ t. pins_of t.port.ctr ≡ frob_doc (pins_of s.port.ctr) mask val)
          (raw_frob_control host (mask ∩ Control.pins) (val ∩ Control.pins) s)
  frob-pins mask val s =
      Returns.mono (raw_frob_control-OnlyControl host (mask ∩ Control.pins) (val ∩ Control.pins) s)
        λ _ t e. ap (λ (p : Port). pins_of p.ctr) e.port ∙ frob-pins_of s.port.ctr mask val

  pub frob_control-pins :
      (mask val : ℕ) (s : Machine W)
      → Returns
          (λ _ t. pins_of t.port.ctr ≡ frob_doc (pins_of s.port.ctr) mask val)
          (frob_control host mask val s)
  unfolding frob_control
  frob_control-pins mask val s =
      Returns.branch' (meets mask Control.reverse) _ _ s _
        (λ _.
          Returns.bind {P = λ _ u. pins_of u.port.ctr ≡ pins_of s.port.ctr}
            (Returns.bind (data_dir-pins_of (val ∩ Control.reverse) s) λ _ t e. returns e)
            λ _ t e.
              Returns.mono (frob-pins mask val t)
                λ _ u f. f ∙ ap (λ (x : ℕ). frob_doc x mask val) e)
        λ _. frob-pins mask val s

  -- What read_control reports after frob_control is "(in & ~mask) ^ val" of what it reported
  -- before, on the four pins, as include/ieee1284.h.in has it; also where the mask asks for a
  -- change of direction too.
  pub read-frob_control :
      (mask val in_pins : ℕ) (s : Machine W)
      → read_control host s ≡ done (pos in_pins) s
      → Returns
          (λ r _. r ≡ pos (frob_doc in_pins mask val))
          ((do frob_control host mask val; read_control host) s)
  unfolding read_control
  read-frob_control mask val in_pins s h = Returns.bind (frob_control-pins mask val s) λ _ t e.
      let was : pins_of s.port.ctr ≡ in_pins = cc in
      returns (ap pos (e ∙ ap (λ (x : ℕ). frob_doc x mask val) was))

  written-pins :
      (reg : ℕ) (s : Machine W)
      → Returns
          (λ _ u. pins_of u.port.ctr ≡ reg ∩ Control.pins)
          (raw_frob_control host Control.pins (reg ∩ Control.pins) s)
  written-pins reg s =
      Returns.mono (raw_frob_control-OnlyControl host Control.pins (reg ∩ Control.pins) s)
        λ _ u e. ap (λ (p : Port). pins_of p.ctr) e.port ∙ write-pins_of s.port.ctr reg

  pub write_control-pins :
      (reg : ℕ) (s : Machine W)
      → Returns (λ _ t. pins_of t.port.ctr ≡ reg ∩ Control.pins) (write_control host reg s)
  unfolding write_control
  write_control-pins reg s =
      Returns.branch' {P = λ _ t. pins_of t.port.ctr ≡ reg ∩ Control.pins}
        (meets reg Control.reverse) _ _ s _
        (λ _.
          Returns.bind {P = λ _ _. Unit {0}}
            (Returns.bind (data_dir-Keeps host 1 s) λ _ t e. returns tt)
            λ _ t _. written-pins reg t)
        λ _. written-pins reg s

  -- What read_control reports after write_control is the value written, on the four pins; also
  -- where the value asks for the reverse direction too.
  pub read-write_control :
      (reg : ℕ) (s : Machine W)
      → Returns
          (λ r _. r ≡ pos (reg ∩ Control.pins))
          ((do write_control host reg; read_control host) s)
  unfolding read_control
  read-write_control reg s = Returns.bind (write_control-pins reg s) λ _ t e. returns (ap pos e)
