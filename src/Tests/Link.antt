-- ===== src/Tests/Link.antt =====
-- Witnesses for the session that src/default.c leaves, on the simulated host.
use libieee.Port.Mode
use libieee.Port.Returns
use libieee.Common.{arith, pos, true, ◌≡◌, ◌⊎◌}
use libieee.Default.Link.{
  default_ecp_fwd_to_rev, default_ecp_rev_to_fwd, default_negotiate, default_terminate, is_rev_idle,
}
use libieee.Default.Link.Session.{
  Negotiated, Terminates, Turned, negotiate-Negotiated, rev_to_fwd-Turned, terminate-mode,
  turns-Turned,
}
use libieee.Port.Delay.{advancing-Waits}
use libieee.Port.Machine.{Phase}
use libieee.Port.Returns.{Returns, returns}
use libieee.Port.Run.{pure}
use libieee.Tests.Sim.{sample, sim-Advances, sim-QuietData, sim-QuietPins, sim_clock, sim_pins}

pub sim-Terminates : Terminates (default_terminate sim_pins (default_ecp_rev_to_fwd sim_pins))
sim-Terminates s =
    Returns.mono
      (terminate-mode sim-QuietPins
        (λ t. Returns.mono (rev_to_fwd-Turned sim-QuietPins sim-QuietData t) λ _ _ _. tt) s)
      λ _ t e. e.0

-- A negotiation to ECP mode.
negotiate-Negotiated_example : Returns (Negotiated Mode.ecp) (
    default_negotiate sim_pins sim_clock
      (default_terminate sim_pins (default_ecp_rev_to_fwd sim_pins))
      Mode.ecp
      sample)
negotiate-Negotiated_example =
    negotiate-Negotiated sim-QuietPins sim-Terminates sim_clock Mode.ecp sample

-- A termination of a link that is idle in the forward direction.
terminate-mode_example :
    Returns
      (λ _ t.
        (t.port.current_mode ≡ Mode.compat)
        × ((is_rev_idle sample.port.current_phase ≡ true)
            ⊎ (t.port.current_phase ≡ sample.port.current_phase)))
      (default_terminate sim_pins (pure (pos 0)) sample)
terminate-mode_example = terminate-mode sim-QuietPins {turn = pure (pos 0)} (λ t. returns tt) sample

turns-Turned_example :
    Returns (Turned sample Phase.fwd_idle) (default_ecp_rev_to_fwd sim_pins sample)
    × Returns (Turned sample Phase.rev_idle) (default_ecp_fwd_to_rev sim_pins sim_clock 6 sample)
turns-Turned_example =
    turns-Turned sim-QuietPins sim-QuietData sim_clock 6
      (advancing-Waits sim_clock 1 sim-Advances 6 5 (omega arith)) sample
