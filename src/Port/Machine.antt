-- ===== src/Port/Machine.antt =====
-- struct parport, struct parport_internal and enum ieee1284_phase. A machine holds one port and
-- the world that its access methods talk to.
use libieee.Common.{Bool, List, Option, ℕ, ℤ}

-- A string, by its bytes.
abbrev pub Text : Type 0
Text = List ℕ

pub data Phase : Type 0 where
  fwd_data fwd_idle terminate negotiation hbusy_dna rev_idle : Phase
  hbusy_davail rev_data ecp_setup ecp_fwd_to_rev ecp_rev_to_fwd ecp_dir_unknown : Phase

-- What `*priv->fn` holds: zeroes before the first open, then a copy of one of the three tables.
-- `own_nack` says that do_nack_handshake is the one of access_ppdev.c, `file_io` that do_inb and
-- do_outb are port_inb and port_outb.
pub data Table : Type 0 where
  zeroed : Table
  ppdev_access_methods : (own_nack : Bool) → Table
  io_access_methods : (file_io : Bool) → Table
  lpt_access_methods : Table

-- struct ppdev_priv, without the timer that set_timeout returns.
pub record PpdevPriv : Type 0 where
  pub nonblock : ℕ
  pub current_flags : ℕ

-- struct parport_internal
pub record Port : Type 0 where
  pub type : ℕ
  pub device : Text
  pub udevice : Option Text
  pub base : ℕ
  pub base_hi : ℕ
  pub interrupt : ℤ
  pub fd : ℤ
  pub opened : Bool
  pub claimed : Bool
  pub ctr : ℕ
  pub current_mode : ℕ
  pub current_channel : ℕ
  pub current_phase : Phase
  pub ref : ℤ
  pub fn : Table
  pub access_priv : PpdevPriv

-- `filename` is the field of struct parport that an open may change, and `live` is false once
-- deref_port has freed the port.
pub record Machine (W : Type 0) : Type 0 where
  pub port : Port
  pub filename : Text
  pub live : Bool
  pub world : W
