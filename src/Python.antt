-- ===== src/Python.antt =====
-- src/ieee1284module.c, the extension module for Python: what its functions have in common. A
-- function gives an object or NULL back, and leaves an exception pending or none.
pub mod Methods
pub mod Transfers
pub mod Calls
pub mod Find
use libieee.Common.{
  List, Option, if◌then◌else◌, is_neg, negsuc, none, pos, some, suc, zero, ℕ, ℤ, ◌==◌,
}

-- The messages of handle_error.
pub data Message : Type 0 where
  not_implemented not_available timed_out rejected went_wrong : Message
  not_initialised no_id invalid_port unknown : Message

-- What PyErr_NoMemory, PyErr_SetFromErrno and PyErr_SetString leave pending; `error` is the
-- module's own exception, by its message.
pub data Exception : Type 0 where
  no_memory : Exception
  os_error : (errno : ℕ) → Exception
  error : Message → Exception
  type_error : Exception

-- The objects that the functions give back.
pub data Object (F : Type 0) : Type 0 where
  none_object : Object F
  int_object : ℤ → Object F
  bytes_object : List ℕ → Object F
  float_object : F → Object F

-- `object` is none for NULL.
pub record Reply (F : Type 0) : Type 0 where
  pub object : Option (Object F)
  pub pending : Option Exception

-- What PyArg_ParseTuple makes of the arguments: it fails with an exception of its own.
pub data Parsed (A : Type 0) : Type 0 where
  parsed : A → Parsed A
  refused : Exception → Parsed A

-- What stands in variables before they are written: `r` of Parport_clear_irq, the upper half of a
-- `size_t` that is parsed as an int, and the memory that malloc gives.
pub record Leftover : Type 0 where
  pub result : ℤ
  pub upper_half : ℕ
  pub memory : ℕ → List ℕ

-- The arithmetic on floats that the conversions of a timeout use, which is not negative.
pub record Floats (F : Type 0) : Type 0 where
  pub to_int : F → ℕ
  pub minus : F → ℕ → F
  pub times : F → ℕ → F
  pub of_int : ℕ → F

-- What is pending after handle_error; `errno` is the system's.
unfoldable pub handle_error : (errno : ℕ) → ℤ → Option Exception
handle_error errno (pos zero) = none
handle_error errno (pos (suc n)) = some (error unknown)
handle_error errno (negsuc n) =
    if n == 0
    then some (error not_implemented)
    else if n == 1
    then some (error not_available)
    else if n == 2
    then some (error timed_out)
    else if n == 3
    then some (error rejected)
    else if n == 4
    then some (error went_wrong)
    else if n == 5
    then some no_memory
    else if n == 6
    then some (error not_initialised)
    else if n == 7
    then some (os_error errno)
    else if n == 8
    then some (error no_id)
    else if n == 9
    then some (error invalid_port)
    else some (error unknown)

module _ {F : Type 0} where
  abbrev pub replies : Object F → Reply F
  replies o = record { object = some o; pending = none }

  abbrev pub parse_failed : Exception → Reply F
  parse_failed e = record { object = none; pending = some e }

  -- `if (r < 0) { handle_error (r); return NULL; }`, and the object otherwise.
  unfoldable pub unless_negative : (errno : ℕ) → ℤ → Object F → Reply F
  unfolding handle_error
  unless_negative errno r o =
      if is_neg r then record { object = none; pending = handle_error errno r } else replies o

-- `*capabilities` and `*portcount`, which are zero before.
abbrev pub from_zero : Option ℕ → ℕ
from_zero none = 0
from_zero (some n) = n
