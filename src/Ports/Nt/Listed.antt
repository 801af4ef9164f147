-- ===== src/Ports/Nt/Listed.antt =====
-- The list that populate_nt_ports of src/ports.c makes.
use libieee.Common.{Bool-cases, List, inl, inr, negsuc, none, suc, zero, ℕ, ℤ, ◌+◌}
use libieee.Lpt.{NtHost}
use libieee.Port.Machine.{Text}
use libieee.Ports.{Entry, Sorts}
use libieee.Ports.Added.{WellFormed, add_port-WellFormed}
use libieee.Ports.Nt.{friendly_name, nt_ports, populate_nt_ports, vdm_name}

module _ {W : Type 0} (nt : NtHost W) {strcmp : Text → Text → ℤ} {qsort : List Entry → List Entry}
    (sorts : Sorts strcmp qsort) where
  nt_ports-WellFormed :
      (n i : ℕ) (list : List Entry) (w : W)
      → WellFormed strcmp list
      → WellFormed strcmp ((nt_ports nt qsort n i list w).0)
  unfolding nt_ports
  nt_ports-WellFormed zero i list w good = good
  nt_ports-WellFormed (suc n) i list w good =
      let tried = nt.create_file (vdm_name i) w in
      elim (Bool-cases (nt.is_invalid_handle tried.0)) [
        | inl e ↦ rw e (nt_ports-WellFormed n (i + 1) list tried.1 good)
        | inr e ↦ rw e (
            nt_ports-WellFormed n (i + 1) _ _ (
              (add_port-WellFormed sorts (friendly_name i) (vdm_name i) none 0 0 (negsuc 0) list
                good).0))
      ]

  -- The ports of Windows NT keep the list as the others do.
  populate_nt_ports-WellFormed :
      (list : List Entry) (w : W)
      → WellFormed strcmp list
      → WellFormed strcmp ((populate_nt_ports nt qsort list w).0)
  unfolding populate_nt_ports
  populate_nt_ports-WellFormed list w good = nt_ports-WellFormed 3 1 list w good
