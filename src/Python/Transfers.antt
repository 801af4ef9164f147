-- ===== src/Python/Transfers.antt =====
-- The block transfers of src/ieee1284module.c: READ_FUNCTION and WRITE_FUNCTION, and their uses.
use libieee.Common.{List, drop, length, nat_of, take, ℕ, ℤ, ◌*◌, ◌++◌, ◌+◌, ◌^◌}
use libieee.Interface.Transfers.{
  ieee1284_byte_read, ieee1284_compat_write, ieee1284_ecp_read_addr, ieee1284_ecp_read_data,
  ieee1284_ecp_write_addr, ieee1284_ecp_write_data, ieee1284_epp_read_addr, ieee1284_epp_read_data,
  ieee1284_epp_write_addr, ieee1284_epp_write_data, ieee1284_nibble_read,
}
use libieee.Port.Machine.{Table}
use libieee.Port.Methods.{Methods, Received}
use libieee.Port.Run.{Run, done, pure, ◌>>=◌}
use libieee.Python.{
  Leftover, Parsed, Reply, bytes_object, int_object, parse_failed, parsed, refused, replies,
  unless_negative,
}

-- The functions of include/ieee1284.h.in that the macros are used with.
pub data Read : Type 0 where
  nibble_read byte_read epp_read_data epp_read_addr ecp_read_data ecp_read_addr : Read

pub data Write : Type 0 where
  compat_write epp_write_data epp_write_addr ecp_write_data ecp_write_addr : Write

module _ {W : Type 0} (methods : Table → Methods W) where
  unfoldable pub library_read : Read → ℕ → ℕ → Run W Received
  unfolding ieee1284_nibble_read ieee1284_byte_read ieee1284_epp_read_data ieee1284_epp_read_addr
      ieee1284_ecp_read_data ieee1284_ecp_read_addr
  library_read Read.nibble_read flags len = ieee1284_nibble_read methods flags len
  library_read Read.byte_read flags len = ieee1284_byte_read methods flags len
  library_read Read.epp_read_data flags len = ieee1284_epp_read_data methods flags len
  library_read Read.epp_read_addr flags len = ieee1284_epp_read_addr methods flags len
  library_read Read.ecp_read_data flags len = ieee1284_ecp_read_data methods flags len
  library_read Read.ecp_read_addr flags len = ieee1284_ecp_read_addr methods flags len

  unfoldable pub library_write : Write → ℕ → List ℕ → Run W ℤ
  unfolding ieee1284_compat_write ieee1284_epp_write_data ieee1284_epp_write_addr
      ieee1284_ecp_write_data ieee1284_ecp_write_addr
  library_write Write.compat_write flags buffer = ieee1284_compat_write methods flags buffer
  library_write Write.epp_write_data flags buffer = ieee1284_epp_write_data methods flags buffer
  library_write Write.epp_write_addr flags buffer = ieee1284_epp_write_addr methods flags buffer
  library_write Write.ecp_write_data flags buffer = ieee1284_ecp_write_data methods flags buffer
  library_write Write.ecp_write_addr flags buffer = ieee1284_ecp_write_addr methods flags buffer

module _ {W F : Type 0} (methods : Table → Methods W) (errno : W → ℕ) where
  -- READ_FUNCTION. The length is parsed as an int into a size_t.
  unfoldable pub parport_read : Read → Leftover → Parsed (ℕ × ℕ) → Run W (Reply F)
  unfolding unless_negative library_read
  parport_read x left (parsed (n, flags)) = do
    let len = n + 2 ^ 32 * left.upper_half
    (got, stored) ← library_read methods x flags len
    let buffer = stored ++ drop (length stored) (left.memory len)
    λ s. done (unless_negative (errno s.world) got (bytes_object (take (nat_of got) buffer))) s
  parport_read x left (refused e) = pure (parse_failed e)

  -- WRITE_FUNCTION. It tests `write`, the address of the function of the C library, and that is not
  -- below zero.
  unfoldable pub parport_write : Write → Parsed (List ℕ × ℕ) → Run W (Reply F)
  unfolding library_write
  parport_write x (parsed (buffer, flags)) = do
    wrote ← library_write methods x flags buffer
    pure (replies (int_object wrote))
  parport_write x (refused e) = pure (parse_failed e)
