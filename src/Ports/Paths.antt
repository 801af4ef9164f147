-- ===== src/Ports/Paths.antt =====
-- The names of files and ports in populate_from_parport and populate_from_sys_dev_parport of
-- src/ports.c, and the arrays that they are written to.
-- "/proc/parport", "/proc/sys/dev/parport", and the names below them.
use libieee.Common.{Bool, [], leb, length, not, ◌&&◌, ◌++◌, ◌+◌, ◌||◌, ◌∷◌}
use libieee.Conf.Words.{text_eq}
use libieee.Detect.{parport}
use libieee.Port.Machine.{Text}

abbrev pub proc_parport_path : Text
proc_parport_path = b'/' ∷ b'p' ∷ b'r' ∷ b'o' ∷ b'c' ∷ b'/' ∷ parport

abbrev pub sys_dev_parport_path : Text
sys_dev_parport_path =
    b'/' ∷ b'p' ∷ b'r' ∷ b'o' ∷ b'c' ∷ b'/' ∷ b's' ∷ b'y' ∷ b's' ∷ b'/' ∷ b'd' ∷ b'e' ∷ b'v' ∷ b'/'
    ∷ parport

abbrev pub hardware : Text
hardware = b'h' ∷ b'a' ∷ b'r' ∷ b'd' ∷ b'w' ∷ b'a' ∷ b'r' ∷ b'e' ∷ []

abbrev pub base_addr_file : Text
base_addr_file = b'b' ∷ b'a' ∷ b's' ∷ b'e' ∷ b'-' ∷ b'a' ∷ b'd' ∷ b'd' ∷ b'r' ∷ []

abbrev pub irq_file : Text
irq_file = b'i' ∷ b'r' ∷ b'q' ∷ []

-- "base:" and "irq:"
abbrev pub base_key : Text
base_key = b'b' ∷ b'a' ∷ b's' ∷ b'e' ∷ b':' ∷ []

abbrev pub irq_key : Text
irq_key = b'i' ∷ b'r' ∷ b'q' ∷ b':' ∷ []

abbrev pub dots : Text → Bool
dots name = text_eq name (b'.' ∷ []) || text_eq name (b'.' ∷ b'.' ∷ [])

abbrev pub default_name : Text
default_name = b'd' ∷ b'e' ∷ b'f' ∷ b'a' ∷ b'u' ∷ b'l' ∷ b't' ∷ []

-- "/dev/parport%s" and "/dev/parports/%s"
unfoldable pub device_node : Text → Text
device_node number = b'/' ∷ b'd' ∷ b'e' ∷ b'v' ∷ b'/' ∷ parport ++ number

unfoldable pub udevice_node : Text → Text
udevice_node number = b'/' ∷ b'd' ∷ b'e' ∷ b'v' ∷ b'/' ∷ parport ++ (b's' ∷ b'/' ∷ number)

-- Does sprintf stay inside an array of 50 characters, with the null character?
abbrev pub fits_array : Text → Bool
fits_array text = leb (length text + 1) 50

-- "/proc/parport/%s/hardware", "/proc/sys/dev/parport/%s/base-addr" and "/proc/sys/dev/parport/%s/irq"
unfoldable pub hardware_path : Text → Text
hardware_path name = proc_parport_path ++ (b'/' ∷ name ++ (b'/' ∷ hardware))

unfoldable pub base_addr_path : Text → Text
base_addr_path name = sys_dev_parport_path ++ (b'/' ∷ name ++ (b'/' ∷ base_addr_file))

unfoldable pub irq_path : Text → Text
irq_path name = sys_dev_parport_path ++ (b'/' ∷ name ++ (b'/' ∷ irq_file))

-- `device` and `udevice`, where ppdev is used.
abbrev pub nodes_fit : Bool → Text → Bool
nodes_fit ppdev number =
    not ppdev || (fits_array (device_node number) && fits_array (udevice_node number))
