-- ===== src/Default/EcpWrite/Ends.antt =====
-- How the ECP writes of src/default.c end: the count, and the phase of the link.
use libieee.Port.Control
use libieee.Port.Returns
use libieee.Common.{List, false, length, pos, ℕ, ℤ, ◌≡◌, ◌≤◌, ◌⊎◌}
use libieee.Default.Link.{is_fwd_idle}
use libieee.Port.Clock.{Clock}
use libieee.Port.Machine.{Machine, Phase}
use libieee.Port.Returns.{Returns}
use libieee.Port.Run.{Run, ◌>>=◌, ◌>>◌}

-- The end of a write from machine `s`: the mode is kept, the count is no more than the buffer has,
-- and the link is idle in the forward direction; or it was not, could not be turned to it, and has an
-- unknown direction, and nothing is written.
pub record Ended {W : Type 0} (buffer : List ℕ) (s : Machine W) (r : ℤ) (t : Machine W)
    : Type 0 where
  pub mode : t.port.current_mode ≡ s.port.current_mode
  pub count : ℕ
  pub result : r ≡ pos count
  pub fits : count ≤ length buffer
  pub idle :
      (t.port.current_phase ≡ Phase.fwd_idle)
      ⊎ ((is_fwd_idle s.port.current_phase ≡ false)
          × (count ≡ 0)
          × (t.port.current_phase ≡ Phase.ecp_dir_unknown))
