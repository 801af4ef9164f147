-- ===== src/Lpt/Lines.antt =====
-- The control lines by src/access_lpt.c and by src/access_io.c: a caller sees no difference.
use libieee.Port.Control
use libieee.Io
use libieee.Port.Returns
use libieee.Common.{List, [], ap, pos, refl, ℕ, ◌∙◌, ◌∩◌, ◌∷◌, ◌≡◌}
use libieee.Io.{frobbed, io_pins}
use libieee.Io.Registers.{
  frob-pins_of, frob_control-pins, frob_doc, pins_of, write-pins_of, write_control-pins,
}
use libieee.Lpt.{NtHost, frob_control, lpt_pins, read_control, write_control}
use libieee.Port.Host.{Host}
use libieee.Port.Machine.{Machine}
use libieee.Port.Methods.{Pins}
use libieee.Port.Returns.{Returns, returns}
use libieee.Port.Run.{Run, skip, ◌>>◌}

-- An operation on the control lines, through a table.
pub data LineOp : Type 0 where
  write_lines : (reg : ℕ) → LineOp
  frob_lines : (mask val : ℕ) → LineOp

unfoldable pub do_ops : {W : Type 0} → Pins W → List LineOp → Run W (Unit {0})
do_ops pin [] = skip
do_ops pin (write_lines reg ∷ ops) = do pin.write_control reg; do_ops pin ops
do_ops pin (frob_lines mask val ∷ ops) = do pin.frob_control mask val; do_ops pin ops

-- What include/ieee1284.h.in says that the lines show then.
unfoldable pub lines_after : ℕ → List LineOp → ℕ
lines_after lines [] = lines
lines_after lines (write_lines reg ∷ ops) = lines_after (reg ∩ Control.pins) ops
lines_after lines (frob_lines mask val ∷ ops) = lines_after (frob_doc lines mask val) ops

-- Methods that do what the documentation says, by the lines that read_control shows of `ctr`.
record Documented {W : Type 0} (pin : Pins W) : Type 0 where
  write :
      (reg : ℕ) (s : Machine W)
      → Returns (λ _ t. pins_of t.port.ctr ≡ reg ∩ Control.pins) (pin.write_control reg s)
  frob :
      (mask val : ℕ) (s : Machine W)
      → Returns
          (λ _ t. pins_of t.port.ctr ≡ frob_doc (pins_of s.port.ctr) mask val)
          (pin.frob_control mask val s)
  reads : (s : Machine W) → Returns (λ r _. r ≡ pos (pins_of s.port.ctr)) (pin.read_control s)

module _ {W : Type 0} (pin : Pins W) (documented : Documented pin) where
  do_ops-lines :
      (ops : List LineOp) (s : Machine W)
      → Returns
          (λ _ t. pins_of t.port.ctr ≡ lines_after (pins_of s.port.ctr) ops)
          (do_ops pin ops s)
  unfolding do_ops lines_after
  do_ops-lines [] s = returns refl
  do_ops-lines (write_lines reg ∷ ops) s =
      Returns.bind (documented.write reg s)
        λ _ t e. Returns.mono (do_ops-lines ops t) λ _ u f. f ∙ ap (λ x. lines_after x ops) e
  do_ops-lines (frob_lines mask val ∷ ops) s =
      Returns.bind (documented.frob mask val s)
        λ _ t e. Returns.mono (do_ops-lines ops t) λ _ u f. f ∙ ap (λ x. lines_after x ops) e

  read-do_ops :
      (ops : List LineOp) (s : Machine W)
      → Returns
          (λ r _. r ≡ pos (lines_after (pins_of s.port.ctr) ops))
          ((do do_ops pin ops; pin.read_control) s)
  read-do_ops ops s =
      Returns.bind (do_ops-lines ops s)
        λ _ t e. Returns.mono (documented.reads t) λ r u f. f ∙ ap pos e

io-Documented : {W : Type 0} (host : Host W) (rounds : ℕ) → Documented (io_pins host rounds)
unfolding Io.read_control
io-Documented host rounds = record {
  write = write_control-pins host;
  frob = frob_control-pins host;
  reads = λ s. returns refl;
}

lpt-Documented : {W : Type 0} (host : NtHost W) (rounds : ℕ) → Documented (lpt_pins host rounds)
unfolding write_control frob_control read_control frobbed
lpt-Documented host rounds = record {
  write = λ reg s. returns (write-pins_of s.port.ctr reg);
  frob = λ mask val s. returns (frob-pins_of s.port.ctr mask val);
  reads = λ s. returns refl;
}

-- After the same writes and frobs of the control lines, through the table of src/access_io.c on one
-- port and through that of src/access_lpt.c on another, read_control returns the same from both,
-- and it is what include/ieee1284.h.in says, if the lines of the two ports showed the same before.
pub read_control-same :
    {W V : Type 0} (host : Host W) (nt : NtHost V) (rounds : ℕ) (ops : List LineOp) (s : Machine W)
    (t : Machine V)
    → pins_of s.port.ctr ≡ pins_of t.port.ctr
    → Returns
        (λ r _. r ≡ pos (lines_after (pins_of s.port.ctr) ops))
        ((do do_ops (io_pins host rounds) ops; Io.read_control host) s)
      × Returns
          (λ r _. r ≡ pos (lines_after (pins_of s.port.ctr) ops))
          ((do do_ops (lpt_pins nt rounds) ops; read_control nt) t)
read_control-same host nt rounds ops s t same = (
  read-do_ops (io_pins host rounds) (io-Documented host rounds) ops s,
  rw same (read-do_ops (lpt_pins nt rounds) (lpt-Documented nt rounds) ops t),
)
