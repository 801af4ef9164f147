-- ===== src/Interface/Transfers.antt =====
-- The block transfers of src/interface.c, and ieee1284_set_timeout.
use libieee.Port.E1284
use libieee.Common.{List, [], ℕ, ℤ}
use libieee.Interface.{if_claimed}
use libieee.Port.Clock.{TimeVal}
use libieee.Port.Machine.{Table}
use libieee.Port.Methods.{Methods, Received}
use libieee.Port.Run.{Run, gets, ◌>>=◌}

module _ {W : Type 0} (methods : Table → Methods W) where
  unfoldable pub ieee1284_nibble_read : ℕ → ℕ → Run W Received
  unfolding if_claimed
  ieee1284_nibble_read flags len =
      if_claimed methods (E1284.invalidport, []) (λ fn. fn.nibble_read flags len)

  unfoldable pub ieee1284_compat_write : ℕ → List ℕ → Run W ℤ
  unfolding if_claimed
  ieee1284_compat_write flags buffer =
      if_claimed methods E1284.invalidport (λ fn. fn.compat_write flags buffer)

  unfoldable pub ieee1284_byte_read : ℕ → ℕ → Run W Received
  unfolding if_claimed
  ieee1284_byte_read flags len =
      if_claimed methods (E1284.invalidport, []) (λ fn. fn.byte_read flags len)

  unfoldable pub ieee1284_epp_read_data : ℕ → ℕ → Run W Received
  unfolding if_claimed
  ieee1284_epp_read_data flags len =
      if_claimed methods (E1284.invalidport, []) (λ fn. fn.epp_read_data flags len)

  unfoldable pub ieee1284_epp_write_data : ℕ → List ℕ → Run W ℤ
  unfolding if_claimed
  ieee1284_epp_write_data flags buffer =
      if_claimed methods E1284.invalidport (λ fn. fn.epp_write_data flags buffer)

  unfoldable pub ieee1284_epp_read_addr : ℕ → ℕ → Run W Received
  unfolding if_claimed
  ieee1284_epp_read_addr flags len =
      if_claimed methods (E1284.invalidport, []) (λ fn. fn.epp_read_addr flags len)

  unfoldable pub ieee1284_epp_write_addr : ℕ → List ℕ → Run W ℤ
  unfolding if_claimed
  ieee1284_epp_write_addr flags buffer =
      if_claimed methods E1284.invalidport (λ fn. fn.epp_write_addr flags buffer)

  unfoldable pub ieee1284_ecp_read_data : ℕ → ℕ → Run W Received
  unfolding if_claimed
  ieee1284_ecp_read_data flags len =
      if_claimed methods (E1284.invalidport, []) (λ fn. fn.ecp_read_data flags len)

  unfoldable pub ieee1284_ecp_write_data : ℕ → List ℕ → Run W ℤ
  unfolding if_claimed
  ieee1284_ecp_write_data flags buffer =
      if_claimed methods E1284.invalidport (λ fn. fn.ecp_write_data flags buffer)

  unfoldable pub ieee1284_ecp_read_addr : ℕ → ℕ → Run W Received
  unfolding if_claimed
  ieee1284_ecp_read_addr flags len =
      if_claimed methods (E1284.invalidport, []) (λ fn. fn.ecp_read_addr flags len)

  unfoldable pub ieee1284_ecp_write_addr : ℕ → List ℕ → Run W ℤ
  unfolding if_claimed
  ieee1284_ecp_write_addr flags buffer =
      if_claimed methods E1284.invalidport (λ fn. fn.ecp_write_addr flags buffer)

  unfoldable pub ieee1284_set_timeout : TimeVal → Run W TimeVal
  ieee1284_set_timeout timeout = do fn ← gets (λ p. p.fn); (methods fn).set_timeout timeout
