-- ===== src/Port/Methods.antt =====
-- struct parport_access_methods of src/detect.h. The pin-level methods come first, in a record of
-- their own, because the default operations of src/default.c are written over them. A method that
-- a table of the source may leave NULL is an `Option`.
use libieee.Common.{List, Option, ℕ, ℤ}
use libieee.Port.Clock.{TimeVal}
use libieee.Port.Run.{Run}

pub record Pins (W : Type 0) : Type 0 where
  pub read_data : Option (Run W ℤ)
  pub write_data : ℕ → Run W (Unit {0})
  pub data_dir : Option (ℕ → Run W ℤ)
  pub read_status : Run W ℤ
  pub wait_status : ℕ → ℕ → TimeVal → Run W ℤ
  pub read_control : Run W ℤ
  pub write_control : ℕ → Run W (Unit {0})
  pub frob_control : ℕ → ℕ → Run W (Unit {0})

-- What a block read returns: the count or error, and the bytes stored at the start of the buffer.
abbrev pub Received : Type 0
Received = ℤ × List ℕ

pub record Methods (W : Type 0) : Type 0 where
  pub init : ℕ → Option ℕ → Run W (ℤ × Option ℕ)
  pub cleanup : Option (Run W (Unit {0}))
  pub claim : Option (Run W ℤ)
  pub release : Option (Run W (Unit {0}))
  pub get_irq_fd : Option (Run W ℤ)
  pub clear_irq : Option (Run W (ℤ × Option ℕ))
  pub pins : Pins W
  pub open pins use *
  pub wait_data : ℕ → ℕ → TimeVal → Run W ℤ
  pub do_nack_handshake : ℕ → ℕ → TimeVal → Run W ℤ
  pub negotiate : ℕ → Run W ℤ
  pub terminate : Run W (Unit {0})
  pub ecp_fwd_to_rev : Run W ℤ
  pub ecp_rev_to_fwd : Run W ℤ
  pub nibble_read : ℕ → ℕ → Run W Received
  pub compat_write : ℕ → List ℕ → Run W ℤ
  pub byte_read : ℕ → ℕ → Run W Received
  pub epp_read_data : ℕ → ℕ → Run W Received
  pub epp_write_data : ℕ → List ℕ → Run W ℤ
  pub epp_read_addr : ℕ → ℕ → Run W Received
  pub epp_write_addr : ℕ → List ℕ → Run W ℤ
  pub ecp_read_data : ℕ → ℕ → Run W Received
  pub ecp_write_data : ℕ → List ℕ → Run W ℤ
  pub ecp_read_addr : ℕ → ℕ → Run W Received
  pub ecp_write_addr : ℕ → List ℕ → Run W ℤ
  pub set_timeout : TimeVal → Run W TimeVal
