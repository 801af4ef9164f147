-- ===== src/Ports/Nt.antt =====
-- populate_nt_ports of src/ports.c, as it is compiled for Cygwin on Windows NT.
pub mod Listed
use libieee.Common.{List, [], drop, if◌then◌else◌, negsuc, none, suc, zero, ℕ, ◌+◌, ◌∷◌}
use libieee.Lpt.{NtHost}
use libieee.Port.Machine.{Text}
use libieee.Ports.{Entry, add_port}

-- "\\.\$VDMLPT" and "LPT", with the digit of a port.
abbrev vdm_name : ℕ → Text
vdm_name i =
    0x5c ∷ 0x5c ∷ b'.' ∷ 0x5c ∷ b'$' ∷ b'V' ∷ b'D' ∷ b'M' ∷ b'L' ∷ b'P' ∷ b'T' ∷ (i + b'0') ∷ []

abbrev friendly_name : ℕ → Text
friendly_name i = drop 8 (vdm_name i)

module _ {W : Type 0} (nt : NtHost W) (qsort : List Entry → List Entry) where
  -- The for loop, with `n` ports left to try, from number `i` on.
  unfoldable pub nt_ports : ℕ → ℕ → List Entry → W → List Entry × W
  nt_ports zero i list w = (list, w)
  nt_ports (suc n) i list w =
      let (handle, w) = nt.create_file (vdm_name i) w in
      let skipped = nt_ports n (i + 1) list w in
      let listed =
        nt_ports n (i + 1)
          ((add_port qsort (friendly_name i) (vdm_name i) none 0 0 (negsuc 0) list).1)
          (nt.close_handle handle w) in
      if nt.is_invalid_handle handle then skipped else listed

  unfoldable pub populate_nt_ports : List Entry → W → List Entry × W
  unfolding nt_ports
  populate_nt_ports list w = nt_ports 3 1 list w
