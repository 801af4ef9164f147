-- ===== src/State.antt =====
-- src/state.c: ieee1284_open, and the choice of an access method that it makes.
pub mod Choice
pub mod Allowed
pub mod Files
use libieee.Port.Cap
use libieee.Port.Capable
use libieee.Port.E1284
use libieee.Common.{Bool, Option, false, if◌then◌else◌, incr, meets, true, truthy, ℕ, ℤ, ◌&&◌, ◌∪◌}
use libieee.Common.Bits.{bit}
use libieee.Port.Machine.{Table}
use libieee.Port.Methods.{Methods}
use libieee.Port.Run.{Run, gets, map_caps, modify, pure, ◌>>=◌, ◌>>◌}

module _ {W : Type 0} (methods : Table → Methods W) where
  -- One access method: its table is copied into the port, and its init is called.
  try_method : ℕ → Table → ℕ → Option ℕ → Run W (ℤ × Option ℕ)
  try_method type table flags caps = do
    modify (λ p. record p { type = type; fn = table })
    (methods table).init flags caps

  -- `if (ret && (capabilities & ...))`
  or_method : (capabilities : ℕ) (bit : ℕ) → Table → ℕ → ℤ × Option ℕ → Run W (ℤ × Option ℕ)
  unfolding try_method
  or_method capabilities bit table flags (ret, caps) =
      if truthy ret && meets capabilities bit
      then try_method bit table flags caps
      else pure (ret, caps)

  -- The last resort, for NT, which says what it can do whether it works or not.
  or_lpt : (capabilities : ℕ) → ℕ → ℤ × Option ℕ → Run W (ℤ × Option ℕ)
  unfolding try_method
  or_lpt capabilities flags (ret, caps) =
      if truthy ret && meets capabilities Capable.lpt
      then (do
        (ret, caps) ← try_method Capable.lpt Table.lpt_access_methods flags caps
        pure (ret, map_caps (λ _. Cap.compat ∪ Cap.nibble) caps))
      else pure (ret, caps)

  -- `capabilities` is the global of src/detect.c, `disallow_ppdev` the one of src/conf.c.
  unfoldable pub init_port :
      (capabilities : ℕ) (disallow_ppdev : Bool) → ℕ → Option ℕ → Run W (ℤ × Option ℕ)
  unfolding or_method or_lpt
  init_port capabilities disallow_ppdev flags caps = do
    let start : ℤ × Option ℕ = (E1284.init, caps)
    r ←
        if disallow_ppdev
        then pure start
        else or_method capabilities Capable.ppdev (Table.ppdev_access_methods true) flags start
    r ← or_method capabilities Capable.io (Table.io_access_methods false) flags r
    r ← or_method capabilities Capable.dev_port (Table.io_access_methods false) flags r
    or_lpt capabilities flags r

  unfoldable pub ieee1284_open :
      (capabilities : ℕ) (disallow_ppdev : Bool) → ℕ → Option ℕ → Run W (ℤ × Option ℕ)
  unfolding init_port
  ieee1284_open capabilities disallow_ppdev flags caps = do
    opened ← gets (λ p. p.opened)
    if opened then pure (E1284.invalidport, caps) else do
      (ret, caps) ←
          init_port capabilities disallow_ppdev flags
            (map_caps (λ _. Cap.nibble ∪ Cap.byte ∪ Cap.compat ∪ Cap.ecpswe) caps)
      if truthy ret
          then pure (ret, caps)
          else do modify (λ p. record p { opened = true; ref = incr p.ref }); pure (E1284.ok, caps)
