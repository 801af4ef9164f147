-- ===== src/Lpt/Missing.antt =====
-- The calls of src/interface.c for which the table of src/access_lpt.c has no method.
use libieee.Port.E1284
use libieee.Common.{none, pos, refl, true, ℕ, ◌≡◌}
use libieee.Interface.{
  ieee1284_clear_irq, ieee1284_data_dir, ieee1284_get_irq_fd, ieee1284_read_data,
}
use libieee.Lpt.{NtHost, lpt_access_methods}
use libieee.Port.Machine.{Machine, Table}
use libieee.Port.Methods.{Methods}
use libieee.Port.Run.{done}

module _ {W : Type 0} (nt : NtHost W) (rounds : ℕ) where
  -- The tables of a system where every port has that of Windows NT.
  abbrev pub nt_methods : Table → Methods W
  nt_methods _ = lpt_access_methods nt rounds

  -- On an open and claimed port of Windows NT, the calls for which there is no method change nothing
  -- and do not crash: get_irq_fd, clear_irq and data_dir return "not available", but read_data
  -- returns the number 2, as if it had read that byte.
  pub missing-methods :
      (reverse : ℕ) (s : Machine W)
      → s.port.opened ≡ true
      → s.port.claimed ≡ true
      → (ieee1284_get_irq_fd nt_methods s ≡ done E1284.notavail s)
        × (ieee1284_clear_irq nt_methods s ≡ done (E1284.notavail, none) s)
        × (ieee1284_data_dir nt_methods reverse s ≡ done E1284.notavail s)
        × (ieee1284_read_data nt_methods s ≡ done (pos 2) s)
  unfolding ieee1284_get_irq_fd ieee1284_clear_irq ieee1284_data_dir ieee1284_read_data
  missing-methods reverse s is_open claimed =
      (rw is_open refl, refl, rw claimed refl, rw claimed refl)
