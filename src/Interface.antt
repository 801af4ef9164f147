-- ===== src/Interface.antt =====
-- src/interface.c, and deref_port of src/ports.c: the calls of the library's users. Each tests that
-- the port is open or claimed, and goes on to the method of the port's table.
pub mod Transfers
pub mod Guards
pub mod References
use libieee.Port.E1284
use libieee.Common.{
  Option, decr, false, if◌then◌else◌, incr, is_one, neg, none, not, pos, some, true, truthy, ℕ, ℤ,
  ◌&&◌,
}
use libieee.Port.Clock.{TimeVal}
use libieee.Port.Machine.{Table}
use libieee.Port.Methods.{Methods}
use libieee.Port.Run.{
  Run, apply_or_else, free_port, gets, if_present, modify, or_else, pure, skip, ◌>>=◌, ◌>>◌,
}
use libieee.Ppdev.Pins.{clear_irq}

module _ {W : Type 0} (methods : Table → Methods W) where
  -- `priv->fn->...`
  with_fn : {A : Type 0} → (Methods W → Run W A) → Run W A
  with_fn use_fn = do fn ← gets (λ p. p.fn); use_fn (methods fn)

  -- The test that heads most functions, with what they return without a claim.
  unfoldable pub if_claimed : {A : Type 0} → A → (Methods W → Run W A) → Run W A
  unfolding with_fn
  if_claimed refused use_fn = do
    claimed ← gets (λ p. p.claimed)
    if claimed then with_fn use_fn else pure refused

  unfoldable pub deref_port : Run W ℤ
  deref_port = do
    modify (λ p. record p { ref = decr p.ref })
    count ← gets (λ p. p.ref)
    if truthy count then skip else free_port
    pure count

  unfoldable pub ieee1284_ref : Run W ℤ
  ieee1284_ref = do modify (λ p. record p { ref = incr p.ref }); gets (λ p. p.ref)

  unfoldable pub ieee1284_close : Run W ℤ
  unfolding deref_port with_fn
  ieee1284_close = do
    opened ← gets (λ p. p.opened)
    if not opened then pure E1284.invalidport else do
      with_fn (λ fn. if_present fn.cleanup)
      modify (λ p. record p { opened = false })
      deref_port
      pure E1284.ok

  unfoldable pub ieee1284_unref : Run W ℤ
  unfolding ieee1284_close deref_port
  ieee1284_unref = do
    opened ← gets (λ p. p.opened)
    ref ← gets (λ p. p.ref)
    if opened && is_one ref
        then (do ret ← ieee1284_close; pure (if truthy ret then pos 1 else pos 0))
        else deref_port

  unfoldable pub ieee1284_claim : Run W ℤ
  unfolding with_fn
  ieee1284_claim = do
    opened ← gets (λ p. p.opened)
    claimed ← gets (λ p. p.claimed)
    if not opened then pure E1284.invalidport else if claimed then pure E1284.invalidport else do
      ret ← with_fn (λ fn. or_else E1284.ok fn.claim)
      if truthy ret then skip else modify (λ p. record p { claimed = true })
      pure ret

  unfoldable pub ieee1284_get_irq_fd : Run W ℤ
  unfolding with_fn
  ieee1284_get_irq_fd = do
    opened ← gets (λ p. p.opened)
    if not opened
        then pure E1284.invalidport
        else with_fn (λ fn. or_else E1284.notavail fn.get_irq_fd)

  -- The result has the count of interrupts, where the method stores one.
  unfoldable pub ieee1284_clear_irq : Run W (ℤ × Option ℕ)
  unfolding with_fn
  ieee1284_clear_irq = with_fn (λ fn. elim fn.clear_irq [
    | none ↦ pure (E1284.notavail, none)
    | some clear_irq ↦ do
      claimed ← gets (λ p. p.claimed)
      if claimed then clear_irq else pure (E1284.invalidport, none)
  ])

  unfoldable pub ieee1284_release : Run W (Unit {0})
  unfolding with_fn
  ieee1284_release = do
    claimed ← gets (λ p. p.claimed)
    if claimed then with_fn (λ fn. if_present fn.release) else skip
    modify (λ p. record p { claimed = false })

  unfoldable pub ieee1284_read_data : Run W ℤ
  unfolding if_claimed
  ieee1284_read_data =
      if_claimed E1284.invalidport (λ fn. or_else (neg E1284.notavail) fn.read_data)

  unfoldable pub ieee1284_write_data : ℕ → Run W (Unit {0})
  unfolding if_claimed
  ieee1284_write_data st = if_claimed tt (λ fn. fn.write_data st)

  unfoldable pub ieee1284_wait_data : ℕ → ℕ → TimeVal → Run W ℤ
  unfolding if_claimed
  ieee1284_wait_data mask val timeout =
      if_claimed E1284.invalidport (λ fn. fn.wait_data mask val timeout)

  unfoldable pub ieee1284_data_dir : ℕ → Run W ℤ
  unfolding if_claimed
  ieee1284_data_dir reverse =
      if_claimed E1284.invalidport (λ fn. apply_or_else E1284.notavail fn.data_dir reverse)

  unfoldable pub ieee1284_read_status : Run W ℤ
  unfolding if_claimed
  ieee1284_read_status = if_claimed E1284.invalidport (λ fn. fn.read_status)

  unfoldable pub ieee1284_wait_status : ℕ → ℕ → TimeVal → Run W ℤ
  unfolding if_claimed
  ieee1284_wait_status mask val timeout =
      if_claimed E1284.invalidport (λ fn. fn.wait_status mask val timeout)

  unfoldable pub ieee1284_read_control : Run W ℤ
  unfolding if_claimed
  ieee1284_read_control = if_claimed E1284.invalidport (λ fn. fn.read_control)

  unfoldable pub ieee1284_write_control : ℕ → Run W (Unit {0})
  unfolding if_claimed
  ieee1284_write_control ct = if_claimed tt (λ fn. fn.write_control ct)

  unfoldable pub ieee1284_frob_control : ℕ → ℕ → Run W (Unit {0})
  unfolding if_claimed
  ieee1284_frob_control mask val = if_claimed tt (λ fn. fn.frob_control mask val)

  unfoldable pub ieee1284_do_nack_handshake : ℕ → ℕ → TimeVal → Run W ℤ
  unfolding if_claimed
  ieee1284_do_nack_handshake ct_before ct_after timeout =
      if_claimed E1284.invalidport (λ fn. fn.do_nack_handshake ct_before ct_after timeout)

  unfoldable pub ieee1284_negotiate : ℕ → Run W ℤ
  unfolding if_claimed
  ieee1284_negotiate mode = if_claimed E1284.invalidport (λ fn. fn.negotiate mode)

  unfoldable pub ieee1284_terminate : Run W (Unit {0})
  unfolding if_claimed
  ieee1284_terminate = if_claimed tt (λ fn. fn.terminate)

  unfoldable pub ieee1284_ecp_fwd_to_rev : Run W ℤ
  unfolding if_claimed
  ieee1284_ecp_fwd_to_rev = if_claimed E1284.invalidport (λ fn. fn.ecp_fwd_to_rev)

  unfoldable pub ieee1284_ecp_rev_to_fwd : Run W ℤ
  unfolding if_claimed
  ieee1284_ecp_rev_to_fwd = if_claimed E1284.invalidport (λ fn. fn.ecp_rev_to_fwd)
