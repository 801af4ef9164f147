-- ===== src/DeviceId.antt =====
-- src/deviceid.c: the Device ID of a port, from the files in /proc or from the device. A function
-- gives back its result and the buffer as it leaves it. `len` is the length of the buffer, which is
-- the caller's; the allocation of a file's name succeeds.
pub mod Buffer
pub mod Fetched
pub mod Kept
pub mod Files
pub mod Autoprobe
use libieee.Port.Capable
use libieee.Port.E1284
use libieee.Port.Mode
use libieee.Port.Transfer
use libieee.Common.{
  Bool, List, Option, [], false, if◌then◌else◌, is_neg, ltb, meets, nat_of, negsuc, none, not, pos,
  some, true, truthy, ℕ, ℤ, ◌++◌, ◌+◌, ◌==◌, ◌||◌, ◌∪◌, ◌∷◌,
}
use libieee.DeviceId.Buffer.{add_int, byte_at, idlen, size_sub, store_at, terminated, with_length}
use libieee.Interface.{
  ieee1284_claim, ieee1284_close, ieee1284_negotiate, ieee1284_release, ieee1284_terminate,
}
use libieee.Interface.Transfers.{ieee1284_nibble_read}
use libieee.Port.Host.{Host}
use libieee.Port.Machine.{Table, Text}
use libieee.Port.Methods.{Methods}
use libieee.Port.Run.{Run, ask, pure, put, ◌>>=◌, ◌>>◌}
use libieee.Ppdev.Modes.{has_others}
use libieee.State.{ieee1284_open}

-- -ETRYNEXT and -ENODEVID
abbrev pub try_next : ℤ
try_next = negsuc 99

abbrev pub no_device_id : ℤ
no_device_id = negsuc 100

abbrev pub is_no_device_id : ℤ → Bool
is_no_device_id (pos n) = false
is_no_device_id (negsuc n) = n == 100

-- `got < 1` and `got < 2`
abbrev pub under_one : ℤ → Bool
under_one (pos n) = ltb n 1
under_one (negsuc n) = true

abbrev pub under_two : ℤ → Bool
under_two (pos n) = ltb n 2
under_two (negsuc n) = true

-- `strchr (port->name, '/') || port->name[0] == '.'`
abbrev has_slash : Text → Bool
has_slash [] = false
has_slash (c ∷ name) = c == b'/' || has_slash name

abbrev pub is_suspicious : Text → Bool
is_suspicious [] = false
is_suspicious (c ∷ name) = has_slash (c ∷ name) || c == b'.'

-- "/proc/parport/", "/proc/sys/dev/parport/", "/autoprobe" and "/deviceid"
abbrev pub proc_parport_dir : Text
proc_parport_dir =
    b'/' ∷ b'p' ∷ b'r' ∷ b'o' ∷ b'c' ∷ b'/' ∷ b'p' ∷ b'a' ∷ b'r' ∷ b'p' ∷ b'o' ∷ b'r' ∷ b't' ∷ b'/'
    ∷ []

abbrev sys_dev_parport_dir : Text
sys_dev_parport_dir =
    b'/' ∷ b'p' ∷ b'r' ∷ b'o' ∷ b'c' ∷ b'/' ∷ b's' ∷ b'y' ∷ b's' ∷ b'/' ∷ b'd' ∷ b'e' ∷ b'v' ∷ b'/'
    ∷ b'p' ∷ b'a' ∷ b'r' ∷ b'p' ∷ b'o' ∷ b'r' ∷ b't' ∷ b'/' ∷ []

abbrev pub autoprobe : Text
autoprobe = b'/' ∷ b'a' ∷ b'u' ∷ b't' ∷ b'o' ∷ b'p' ∷ b'r' ∷ b'o' ∷ b'b' ∷ b'e' ∷ []

abbrev deviceid : Text
deviceid = b'/' ∷ b'd' ∷ b'e' ∷ b'v' ∷ b'i' ∷ b'c' ∷ b'e' ∷ b'i' ∷ b'd' ∷ []

-- The system: `open_read_only` is `open (name, O_RDONLY | O_NOCTTY)`, `decimal` is "%d" of printf.
pub record Reader (W : Type 0) : Type 0 where
  pub host : Host W
  pub open_read_only : Text → W → ℤ × W
  pub decimal : ℤ → Text

-- A result, and the buffer.
abbrev pub Filled : Type 0
Filled = ℤ × List ℕ

module _ {W : Type 0} (reader : Reader W) where
  -- The file of a port, by its directory and kind, for a daisy-chained device where there is one.
  abbrev pub file_of : (directory name kind : Text) → ℤ → Text
  file_of directory name kind daisy =
      directory ++ (name ++ (kind ++ (if is_neg daisy then [] else reader.decimal daisy)))

  -- Open, read at most so many bytes and close; nothing, if the file does not open.
  unfoldable pub read_file : Text → ℕ → Run W (Option (ℤ × List ℕ))
  read_file name size = do
    fd ← ask (reader.open_read_only name)
    if is_neg fd then pure none else do
      got ← ask (reader.host.read fd size)
      put (reader.host.close_file fd)
      pure (some got)

  -- What a file of the kernel gives: the text, to which the two bytes of the length are added here.
  abbrev after_autoprobe : ℕ → List ℕ → ℤ × List ℕ → Filled
  after_autoprobe len buffer (got, bytes) =
      let buffer = store_at 2 bytes buffer in
      if under_one got
      then (try_next, buffer)
      else (got, with_length (nat_of got) (terminated (pos (2 + nat_of got)) len buffer))

  -- The whole Device ID, as the device has sent it.
  abbrev after_deviceid : ℕ → List ℕ → ℤ × List ℕ → Filled
  after_deviceid len buffer (got, bytes) =
      let buffer = store_at 0 bytes buffer in
      if under_one got then (try_next, buffer) else (got, terminated got len buffer)

  -- The same as after_autoprobe, with a zero behind the text in any case.
  abbrev after_old_autoprobe : List ℕ → ℤ × List ℕ → Filled
  after_old_autoprobe buffer (got, bytes) =
      let buffer = store_at 2 bytes buffer in
      if under_one got
      then (try_next, buffer)
      else (got, with_length (nat_of got) (store_at (2 + nat_of got) (0 ∷ []) buffer))

  abbrev from_autoprobe : ℕ → List ℕ → Option (ℤ × List ℕ) → Filled
  from_autoprobe len buffer none = (try_next, buffer)
  from_autoprobe len buffer (some got) = after_autoprobe len buffer got

  abbrev from_old_autoprobe : List ℕ → Option (ℤ × List ℕ) → Filled
  from_old_autoprobe buffer none = (try_next, buffer)
  from_old_autoprobe buffer (some got) = after_old_autoprobe buffer got

  -- The second file of /proc/sys/dev/parport, where the first one does not open.
  or_old_autoprobe : (name : Text) → ℤ → ℕ → List ℕ → Option (ℤ × List ℕ) → Run W Filled
  unfolding read_file store_at with_length terminated
  or_old_autoprobe name daisy len buffer (some got) = pure (after_deviceid len buffer got)
  or_old_autoprobe name daisy len buffer none = do
    file ← read_file (file_of sys_dev_parport_dir name autoprobe daisy) (size_sub len 3)
    pure (from_old_autoprobe buffer file)

  unfoldable pub get_from_proc_parport : (name : Text) → ℤ → ℕ → List ℕ → Run W Filled
  unfolding read_file store_at with_length terminated
  get_from_proc_parport name daisy len buffer =
      if is_suspicious name then pure (try_next, buffer) else do
        file ← read_file (file_of proc_parport_dir name autoprobe daisy) (size_sub len 2)
        pure (from_autoprobe len buffer file)

  unfoldable pub get_from_sys_dev_parport : (name : Text) → ℤ → ℕ → List ℕ → Run W Filled
  unfolding or_old_autoprobe read_file store_at with_length terminated
  get_from_sys_dev_parport name daisy len buffer =
      if is_suspicious name then pure (try_next, buffer) else do
        file ← read_file (file_of sys_dev_parport_dir name deviceid daisy) len
        or_old_autoprobe name daisy len buffer file

module _ {W : Type 0} (methods : Table → Methods W) where
  -- The text of the Device ID, once its length has been read.
  unfoldable pub read_text : ℤ → ℕ → List ℕ → Run W Filled
  unfolding store_at terminated idlen byte_at ieee1284_nibble_read ieee1284_terminate
  read_text got len buffer = do
    (more, bytes) ← ieee1284_nibble_read methods 0 (idlen len (byte_at 0 buffer) (byte_at 1 buffer))
    ieee1284_terminate methods
    pure (add_int got more, terminated (add_int got more) len (store_at 2 bytes buffer))

  unfoldable pub get_fresh : ℤ → ℕ → List ℕ → Run W Filled
  unfolding store_at read_text ieee1284_nibble_read ieee1284_terminate ieee1284_negotiate
  get_fresh daisy len buffer = if not (is_neg daisy) then pure (E1284.notimpl, buffer) else do
    ieee1284_terminate methods
    r ← ieee1284_negotiate methods (Mode.nibble ∪ Mode.flag_deviceid)
    if truthy r then pure (E1284.notavail, buffer) else do
      (got, bytes) ← ieee1284_nibble_read methods 0 2
      if under_two got
          then pure (E1284.noid, store_at 0 bytes buffer)
          else read_text got len (store_at 0 bytes buffer)

  -- The Device ID that the device sends, by a session of its own.
  unfoldable pub from_device :
      (capabilities : ℕ) (disallow_ppdev : Bool) → ℤ → ℕ → List ℕ → Run W Filled
  unfolding get_fresh ieee1284_open ieee1284_claim ieee1284_release ieee1284_close
  from_device capabilities disallow_ppdev daisy len buffer = do
    (ret, _) ← ieee1284_open methods capabilities disallow_ppdev 0 none
    if truthy ret then pure (ret, buffer) else do
      ret ← ieee1284_claim methods
      if truthy ret then pure (ret, buffer) else do
        filled ← get_fresh daisy len buffer
        ieee1284_release methods
        ieee1284_close methods
        pure filled

  module _ (reader : Reader W) where
    -- The files of /proc, where the system has them, and -1 where it has none.
    unfoldable pub from_files : (capabilities : ℕ) → (name : Text) → ℤ → ℕ → List ℕ → Run W Filled
    unfolding get_from_sys_dev_parport get_from_proc_parport
    from_files capabilities name daisy len buffer =
        if meets capabilities Capable.proc_sys_dev_parport
        then get_from_sys_dev_parport reader name daisy len buffer
        else if meets capabilities Capable.proc_parport
        then get_from_proc_parport reader name daisy len buffer
        else pure (negsuc 0, buffer)

    unfoldable pub ieee1284_get_deviceid :
        (capabilities : ℕ) (disallow_ppdev : Bool) (name : Text)
        → ℤ
        → (flags : ℕ) → ℕ
        → List ℕ
        → Run W Filled
    unfolding from_files from_device
    ieee1284_get_deviceid capabilities disallow_ppdev name daisy flags len buffer =
        if has_others flags Transfer.fresh
        then pure (E1284.notimpl, buffer)
        else if meets flags Transfer.fresh
        then from_device capabilities disallow_ppdev daisy len buffer
        else do
          (ret, buffer) ← from_files capabilities name daisy len buffer
          if not (is_neg ret)
              then pure (ret, buffer)
              else if is_no_device_id ret
              then pure (E1284.notavail, buffer)
              else from_device capabilities disallow_ppdev daisy len buffer
