-- ===== src/Ports.antt =====
-- The list of ports of src/ports.c: add_port, and the guesses for a system that says nothing about
-- its ports. The qsort of the system is a parameter, with strcmp.
pub mod Added
pub mod Paths
pub mod Proc
pub mod Nt
pub mod Find
use mathlib.Core.List.Perm
use mathlib.Core.List.{Perm}
use libieee.Port.E1284
use libieee.Common.{
  Bool, List, Option, [], false, if◌then◌else◌, is_neg, length, negsuc, none, pos, true, ℕ, ℤ, ◌++◌,
  ◌-◌, ◌==◌, ◌∷◌, ◌≡◌,
}
use libieee.Io.{dev_port_name}
use libieee.Port.Machine.{Phase, Port, Table, Text}

-- struct parport in the list, with the struct parport_internal that it points to.
pub record Entry : Type 0 where
  pub name : Text
  pub filename : Text
  pub base_addr : ℕ
  pub hibase_addr : ℕ
  pub priv : Port
  pub live : Bool

abbrev pub max_ports : ℕ
max_ports = 20

-- `if (interrupt < -1) interrupt = -1`
abbrev clamp : ℤ → ℤ
clamp (pos n) = pos n
clamp (negsuc n) = negsuc 0

-- The port that add_port makes; what it does not set is zero.
unfoldable pub new_port :
    (name device : Text) (udevice : Option Text) (base hibase : ℕ) (interrupt : ℤ) → Entry
new_port name device udevice base hibase interrupt = record {
  name = name;
  filename = device;
  base_addr = base;
  hibase_addr = hibase;
  priv = record {
    type = 0;
    device = device;
    udevice = udevice;
    base = base;
    base_hi = 0;
    interrupt = clamp interrupt;
    fd = negsuc 0;
    opened = false;
    claimed = false;
    ctr = 0;
    current_mode = 0;
    current_channel = 0;
    current_phase = Phase.fwd_data;
    ref = pos 1;
    fn = Table.zeroed;
    access_priv = record { nonblock = 0; current_flags = 0 };
  };
  live = true;
}

-- The order of compare_port: no name comes after that of its right neighbour.
abbrev pub Ordered : (Text → Text → ℤ) → List Entry → Type 0
Ordered strcmp [] = Unit {0}
Ordered strcmp (e ∷ []) = Unit {0}
Ordered strcmp (e ∷ f ∷ rest) = (is_neg (strcmp f.name e.name) ≡ false) × Ordered strcmp (f ∷ rest)

-- What qsort does to an array of ports, with the comparison of names.
pub record Sorts (strcmp : Text → Text → ℤ) (qsort : List Entry → List Entry) : Type 0 where
  pub ordered : (list : List Entry) → Ordered strcmp (qsort list)
  pub perm : (list : List Entry) → Perm (qsort list) list
  pub size : (list : List Entry) → length (qsort list) ≡ length list

module _ (qsort : List Entry → List Entry) where
  -- `list->portv[list->portc++] = p; sort_ports (list)`, where there is room.
  unfoldable pub add_port :
      (name device : Text) (udevice : Option Text) (base hibase : ℕ) (interrupt : ℤ)
      → List Entry
      → ℤ × List Entry
  add_port name device udevice base hibase interrupt list =
      if length list == max_ports - 1
      then (E1284.nomem, list)
      else (pos 0, qsort (list ++ new_port name device udevice base hibase interrupt ∷ []))

  -- The three ports that are tried by their addresses, through "/dev/port".
  unfoldable pub populate_by_guessing : List Entry → List Entry
  unfolding add_port
  populate_by_guessing list =
      let list = (add_port name_378 dev_port_name none 0x378 0 (negsuc 0) list).1 in
      let list = (add_port name_278 dev_port_name none 0x278 0 (negsuc 0) list).1 in
      (add_port name_3bc dev_port_name none 0x3bc 0 (negsuc 0) list).1
    where
      name_378 : Text
      name_378 = b'0' ∷ b'x' ∷ b'3' ∷ b'7' ∷ b'8' ∷ []

      name_278 : Text
      name_278 = b'0' ∷ b'x' ∷ b'2' ∷ b'7' ∷ b'8' ∷ []

      name_3bc : Text
      name_3bc = b'0' ∷ b'x' ∷ b'3' ∷ b'b' ∷ b'c' ∷ []
