-- ===== src/Interface/Guards.antt =====
-- The guards of src/interface.c: without a claim nothing reaches a method.
use libieee.Port.E1284
use libieee.Common.{List, [], false, ℕ, ◌≡◌}
use libieee.Interface.{
  ieee1284_data_dir, ieee1284_do_nack_handshake, ieee1284_ecp_fwd_to_rev, ieee1284_ecp_rev_to_fwd,
  ieee1284_frob_control, ieee1284_negotiate, ieee1284_read_control, ieee1284_read_data,
  ieee1284_read_status, ieee1284_terminate, ieee1284_wait_data, ieee1284_wait_status,
  ieee1284_write_control, ieee1284_write_data,
}
use libieee.Interface.Transfers.{
  ieee1284_byte_read, ieee1284_compat_write, ieee1284_ecp_read_addr, ieee1284_ecp_read_data,
  ieee1284_ecp_write_addr, ieee1284_ecp_write_data, ieee1284_epp_read_addr, ieee1284_epp_read_data,
  ieee1284_epp_write_addr, ieee1284_epp_write_data, ieee1284_nibble_read,
}
use libieee.Port.Clock.{TimeVal}
use libieee.Port.Machine.{Machine, Table}
use libieee.Port.Methods.{Methods}
use libieee.Port.Run.{done}

module _ {W : Type 0} (methods : Table → Methods W) (s : Machine W)
    (unclaimed : s.port.claimed ≡ false) where
  -- On a port that is not claimed, every function that works on the lines or the link returns
  -- "invalid port", or nothing where it returns nothing, and changes neither the port nor the
  -- world.
  pub unclaimed-refused :
      (reg mask val : ℕ) (timeout : TimeVal) (mode : ℕ)
      → (ieee1284_read_data methods s ≡ done E1284.invalidport s)
        × (ieee1284_write_data methods reg s ≡ done tt s)
        × (ieee1284_wait_data methods mask val timeout s ≡ done E1284.invalidport s)
        × (ieee1284_data_dir methods reg s ≡ done E1284.invalidport s)
        × (ieee1284_read_status methods s ≡ done E1284.invalidport s)
        × (ieee1284_wait_status methods mask val timeout s ≡ done E1284.invalidport s)
        × (ieee1284_read_control methods s ≡ done E1284.invalidport s)
        × (ieee1284_write_control methods reg s ≡ done tt s)
        × (ieee1284_frob_control methods mask val s ≡ done tt s)
        × (ieee1284_do_nack_handshake methods mask val timeout s ≡ done E1284.invalidport s)
        × (ieee1284_negotiate methods mode s ≡ done E1284.invalidport s)
        × (ieee1284_terminate methods s ≡ done tt s)
        × (ieee1284_ecp_fwd_to_rev methods s ≡ done E1284.invalidport s)
        × (ieee1284_ecp_rev_to_fwd methods s ≡ done E1284.invalidport s)
  unfolding ieee1284_read_data ieee1284_write_data ieee1284_wait_data ieee1284_data_dir
      ieee1284_read_status ieee1284_wait_status ieee1284_read_control ieee1284_write_control
      ieee1284_frob_control ieee1284_do_nack_handshake ieee1284_negotiate ieee1284_terminate
      ieee1284_ecp_fwd_to_rev ieee1284_ecp_rev_to_fwd
  unclaimed-refused reg mask val timeout mode = (
    rw unclaimed,
    rw unclaimed,
    rw unclaimed,
    rw unclaimed,
    rw unclaimed,
    rw unclaimed,
    rw unclaimed,
    rw unclaimed,
    rw unclaimed,
    rw unclaimed,
    rw unclaimed,
    rw unclaimed,
    rw unclaimed,
    rw unclaimed,
  )

  -- On a port that is not claimed, every block transfer returns "invalid port", stores nothing in
  -- the buffer, and changes neither the port nor the world.
  pub unclaimed-no_transfer :
      (flags len : ℕ) (buffer : List ℕ)
      → (ieee1284_nibble_read methods flags len s ≡ done (E1284.invalidport, []) s)
        × (ieee1284_compat_write methods flags buffer s ≡ done E1284.invalidport s)
        × (ieee1284_byte_read methods flags len s ≡ done (E1284.invalidport, []) s)
        × (ieee1284_epp_read_data methods flags len s ≡ done (E1284.invalidport, []) s)
        × (ieee1284_epp_write_data methods flags buffer s ≡ done E1284.invalidport s)
        × (ieee1284_epp_read_addr methods flags len s ≡ done (E1284.invalidport, []) s)
        × (ieee1284_epp_write_addr methods flags buffer s ≡ done E1284.invalidport s)
        × (ieee1284_ecp_read_data methods flags len s ≡ done (E1284.invalidport, []) s)
        × (ieee1284_ecp_write_data methods flags buffer s ≡ done E1284.invalidport s)
        × (ieee1284_ecp_read_addr methods flags len s ≡ done (E1284.invalidport, []) s)
        × (ieee1284_ecp_write_addr methods flags buffer s ≡ done E1284.invalidport s)
  unfolding ieee1284_nibble_read ieee1284_compat_write ieee1284_byte_read ieee1284_epp_read_data
      ieee1284_epp_write_data ieee1284_epp_read_addr ieee1284_epp_write_addr ieee1284_ecp_read_data
      ieee1284_ecp_write_data ieee1284_ecp_read_addr ieee1284_ecp_write_addr
  unclaimed-no_transfer flags len buffer = (
    rw unclaimed,
    rw unclaimed,
    rw unclaimed,
    rw unclaimed,
    rw unclaimed,
    rw unclaimed,
    rw unclaimed,
    rw unclaimed,
    rw unclaimed,
    rw unclaimed,
    rw unclaimed,
  )
