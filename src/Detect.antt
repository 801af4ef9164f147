-- ===== src/Detect.antt =====
-- src/detect.c, as it is compiled for Linux with sys/io.h: what the system has to reach a parallel
-- port by. The lines that src/debug.c prints are left out.
pub mod Calls
pub mod Found
pub mod Forbidden
pub mod Files
use libieee.Port.Capable
use libieee.Common.{
  Bool, Option, [], false, if◌then◌else◌, is_neg, ltb, meets, none, not, pos, some, suc, true,
  truthy, zero, ℕ, ℤ, ◌&&◌, ◌++◌, ◌+◌, ◌==◌, ◌∷◌,
}
use libieee.Common.Bits.{bit}
use libieee.Detect.Calls.{Detecting, FileStatus, System, ask, found_capable, pure, put, ◌>>=◌, ◌>>◌}
use libieee.Io.{dev_port_name}
use libieee.Port.Host.{Request}
use libieee.Port.Machine.{Text}

abbrev dev : Text
dev = b'/' ∷ b'd' ∷ b'e' ∷ b'v' ∷ b'/' ∷ []

abbrev pub parport : Text
parport = b'p' ∷ b'a' ∷ b'r' ∷ b'p' ∷ b'o' ∷ b'r' ∷ b't' ∷ []

abbrev pub lp : Text
lp = b'l' ∷ b'p' ∷ []

-- "/proc/sys/dev/parport" and "/proc/parport"
abbrev proc_sys_dev_parport : Text
proc_sys_dev_parport = b'/' ∷ b'p' ∷ b'r' ∷ b'o' ∷ b'c' ∷ b'/' ∷ b's' ∷ b'y' ∷ b's' ∷ dev ++ parport

abbrev proc_parport : Text
proc_parport = b'/' ∷ b'p' ∷ b'r' ∷ b'o' ∷ b'c' ∷ b'/' ∷ parport

-- "/dev/%s%d" and "/dev/%ss/%d", for a number of one digit.
abbrev node_name : Text → ℕ → Text
node_name type i = dev ++ (type ++ ((b'0' + i) ∷ []))

abbrev udev_name : Text → ℕ → Text
udev_name type i = dev ++ (type ++ (b's' ∷ b'/' ∷ (b'0' + i) ∷ []))

abbrev fd_ok : ℤ → Bool
fd_ok fd = not (is_neg fd)

module _ {W : Type 0} (system : System W) where
  -- `stat (name, &st) == 0 && S_ISDIR (st.st_mode)`
  abbrev is_directory : Option FileStatus → Bool
  is_directory none = false
  is_directory (some st) = st.is_dir

  -- The same, and `st.st_nlink > 2`.
  abbrev has_subdirectories : Option FileStatus → Bool
  has_subdirectories none = false
  has_subdirectories (some st) = st.is_dir && ltb 2 st.nlink

  unfoldable pub check_proc_type : Detecting W ℕ
  check_proc_type = do
    st ← ask (system.stat proc_sys_dev_parport)
    if is_directory st
        then (do found_capable Capable.proc_sys_dev_parport; pure Capable.proc_sys_dev_parport)
        else do
          st ← ask (system.stat proc_parport)
          if has_subdirectories st
              then (do found_capable Capable.proc_parport; pure Capable.proc_parport)
              else (do found_capable 0; pure 0)

  -- The node, under its second name where the first one does not open.
  unfoldable pub open_node : Text → Bool → ℕ → Detecting W ℤ
  open_node type is_parport i = do
    fd ← ask (system.open_read_only (node_name type i))
    if is_neg fd && is_parport then ask (system.open_read_only (udev_name type i)) else pure fd

  -- Claim the device, so that its driver is loaded, and release it.
  unfoldable pub try_claim : ℤ → Detecting W (Unit {0})
  try_claim fd = do
    (r, _) ← ask (system.host.ioctl fd Request.ppclaim)
    if truthy r then pure tt else do ask (system.host.ioctl fd Request.pprelease); pure tt

  -- The for loop, with `n` nodes left to try, from number `i` on.
  unfoldable pub check_nodes : Text → Bool → ℕ → ℕ → Detecting W Bool
  unfolding open_node try_claim
  check_nodes type is_parport zero i = pure false
  check_nodes type is_parport (suc n) i = do
    fd ← open_node type is_parport i
    if fd_ok fd
        then (do
          if is_parport then try_claim fd else pure tt
          put (system.host.close_file fd)
          pure true)
        else check_nodes type is_parport n (i + 1)

  -- `!strncmp (type, "parport", 7)`
  abbrev starts_with : Text → Text → Bool
  starts_with [] t = true
  starts_with (a ∷ s) [] = false
  starts_with (a ∷ s) (b ∷ t) = a == b && starts_with s t

  unfoldable pub check_dev_node : Text → Detecting W Bool
  unfolding check_nodes
  check_dev_node type = check_nodes type (starts_with parport type) 8 0

  unfoldable pub check_dev_port : Detecting W Bool
  check_dev_port = do
    fd ← ask (system.host.open_file dev_port_name)
    if fd_ok fd
        then (do put (system.host.close_file fd); found_capable Capable.dev_port; pure true)
        else pure false

  unfoldable pub check_io : Detecting W Bool
  check_io = do
    r ← ask (system.host.ioperm 0x378 3 1)
    if truthy r
        then pure false
        else do ask (system.host.ioperm 0x378 3 0); found_capable Capable.io; pure true

  -- There is no such access on Linux.
  abbrev pub check_lpt : Detecting W Bool
  check_lpt = pure false

  -- `if (!FORBIDDEN (bit)) check ()`, from the result that there is otherwise.
  abbrev unless_forbidden : ℕ → ℕ → Detecting W Bool → Detecting W Bool
  unless_forbidden forbidden bit check = if meets forbidden bit then pure false else check

  -- The checks, once `capabilities` is 0.
  unfoldable pub detect_all : ℕ → Detecting W (Unit {0})
  unfolding check_dev_node check_io check_dev_port check_proc_type
  detect_all forbidden = do
    dev_node_parport ← unless_forbidden forbidden Capable.ppdev (check_dev_node parport)
    if dev_node_parport then found_capable Capable.ppdev else pure tt
    unless_forbidden forbidden Capable.io check_io
    unless_forbidden forbidden Capable.dev_port check_dev_port
    unless_forbidden forbidden Capable.lpt check_lpt
    if dev_node_parport then pure false else check_dev_node lp
    check_proc_type
    pure tt

  unfoldable pub detect_environment : ℕ → Detecting W ℤ
  unfolding detect_all
  detect_environment forbidden k =
      if k.detected && forbidden == 0
      then (pos 0, k)
      else (pos 0, (detect_all forbidden (record k { detected = true; capabilities = 0 })).1)
