-- ===== src/Ports/Proc/Short.antt =====
-- Names in /proc that fit in the arrays of src/ports.c: seventeen characters are few enough for every
-- path that is made of them.
use native.Mathlib.Nat.{le_trans}
use libieee.Common.{
  Bool, List, [], arith, drop, false, leb, length, length-append, not, refl, some, suc, true, zero,
  ℕ, ◌&&◌, ◌-◌, ◌∷◌, ◌≡◌, ◌≤◌,
}
use libieee.Port.Machine.{Text}
use libieee.Ports.Paths.{
  base_addr_file, base_addr_path, device_node, fits_array, hardware, hardware_path, irq_file,
  irq_path, nodes_fit, udevice_node,
}
use libieee.Ports.Proc.{Lister, number_of, skip_digits}

abbrev pub is_short : Text → Bool
is_short name = leb (length name) 17

abbrev pub all_short : List Text → Bool
all_short [] = true
all_short (name ∷ names) = is_short name && all_short names

-- The names that the kernel lists are short.
abbrev pub ShortNames : {W : Type 0} → Lister W → Type 0
ShortNames {W = W} lister =
    (path : Text) (w : W) (names : List Text)
    → (lister.directory path w).0 ≡ some names
    → all_short names ≡ true

length-drop : (n : ℕ) (t : Text) → length (drop n t) ≤ length t
length-drop zero t = omega arith
length-drop (suc n) [] = omega arith
length-drop (suc n) (c ∷ t) = omega (arith, length-drop n t)

length-number_of : (name : Text) → length (number_of name) ≤ length name
unfolding number_of
length-number_of name = length-drop (suc (skip_digits (length name - 1) name)) name

fits_short : (text : Text) → length text ≤ 49 → fits_array text ≡ true
fits_short text h = ground (arith, h)

device_node-fits : (name : Text) → length name ≤ 17 → fits_array (device_node name) ≡ true
unfolding device_node
device_node-fits name h = fits_short (device_node name) (omega (arith, h))

udevice_node-fits : (name : Text) → length name ≤ 17 → fits_array (udevice_node name) ≡ true
unfolding udevice_node
udevice_node-fits name h = fits_short (udevice_node name) (omega (arith, h))

nodes-fit : (ppdev : Bool) (number : Text) → length number ≤ 17 → nodes_fit ppdev number ≡ true
nodes-fit ppdev number h =
    let device = device_node-fits number h in
    let udevice = udevice_node-fits number h in ground (arith, device, udevice)

hardware_path-fits : (name : Text) → length name ≤ 17 → fits_array (hardware_path name) ≡ true
unfolding hardware_path
hardware_path-fits name h =
    fits_short (hardware_path name) (omega (arith, h, length-append name (b'/' ∷ hardware)))

base_addr_path-fits : (name : Text) → length name ≤ 17 → fits_array (base_addr_path name) ≡ true
unfolding base_addr_path
base_addr_path-fits name h =
    fits_short (base_addr_path name) (omega (arith, h, length-append name (b'/' ∷ base_addr_file)))

irq_path-fits : (name : Text) → length name ≤ 17 → fits_array (irq_path name) ≡ true
unfolding irq_path
irq_path-fits name h =
    fits_short (irq_path name) (omega (arith, h, length-append name (b'/' ∷ irq_file)))

-- The tests of the two loops' bodies.
pub proc-fits :
    (ppdev : Bool) (name : Text)
    → is_short name ≡ true
    → not (nodes_fit ppdev name && fits_array (hardware_path name)) ≡ false
proc-fits ppdev name h =
    let few : length name ≤ 17 = ground (arith, h) in
    rw (nodes-fit ppdev name few, hardware_path-fits name few) refl

pub sys_dev-fits :
    (ppdev : Bool) (name : Text)
    → is_short name ≡ true
    → not (
        nodes_fit ppdev (number_of name)
        && fits_array (base_addr_path name)
        && fits_array (irq_path name))
      ≡ false
sys_dev-fits ppdev name h =
    let few : length name ≤ 17 = ground (arith, h) in
    rw
      (
        nodes-fit ppdev (number_of name) (le_trans (length-number_of name) few),
        base_addr_path-fits name few,
        irq_path-fits name few,
      )
      refl
