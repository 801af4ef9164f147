-- ===== src/Tests/Device.antt =====
-- Witnesses for src/access_ppdev.c, on a host where every request succeeds.
use libieee.Port.E1284
use libieee.Port.Mode
use libieee.Ppdev.Modes
use libieee.Port.Transfer
use libieee.Common.{[], false, if◌then◌else◌, not, pos, refl, ℕ, ℤ, ◌&&◌, ◌==◌, ◌∪◌, ◌∷◌, ◌≡◌, ◌≢◌}
use libieee.Default.Link.{request}
use libieee.Port.Host.{Host, Request, ppsetmode}
use libieee.Port.Machine.{Machine}
use libieee.Port.Methods.{Received}
use libieee.Port.Returns.{Returns}
use libieee.Ppdev.Blocks.{block_read, block_write}
use libieee.Ppdev.Blocks.Timeouts.{Posix, transfers-Reported, value}
use libieee.Ppdev.Modes.{wanted_flags, which_mode}
use libieee.Ppdev.Modes.Agreed.{Agreed, Device, negotiate-Agreed, set_mode-Agreed}
use libieee.Ppdev.Parport.{addr_flag, data_flag}
use libieee.Tests.Sim.{sample, sim_host}

sim-Posix : Posix sim_host
sim-Posix = record {
  read = λ fd n w. value 1;
  write = λ fd bytes w. value 1;
  ioctl = λ fd r w. value 0;
  eagain = refl;
}

negotiate-Agreed_example :
    Returns (Agreed Mode.nibble sample) (Modes.negotiate sim_host Mode.nibble sample)
negotiate-Agreed_example = negotiate-Agreed sim_host Mode.nibble sample

ecp_number : which_mode Mode.ecp Transfer.rle ≡ pos Mode.ecprle
unfolding which_mode
ecp_number = refl

flags_kept : (not (0 == wanted_flags Mode.ecp Transfer.rle) && Mode.ecp == Mode.epp) ≡ false
unfolding wanted_flags
flags_kept = refl

-- A host whose world is the mode of its device.
abbrev mode_ioctl : ℤ → Request → ℕ → (ℤ × ℕ) × ℕ
mode_ioctl fd request w = ((pos 0, 0), elim request [ ppsetmode m ↦ m | _ ↦ w ])

abbrev mode_host : Host ℕ
mode_host = record sim_host { ioctl = mode_ioctl }

mode_host-Device : Device mode_host (λ w. w)
mode_host-Device = record { sets = λ fd m w h. refl; fails = λ fd m w h. absurd (cc) }

abbrev in_ecp : Machine ℕ
in_ecp = record sample { world = 0x100 }

-- ECP with run lengths, for an address.
set_mode-Agreed_example :
    Returns
      (λ r t.
        Agreed (Mode.ecprle ∪ (if 1 == 0 then data_flag else addr_flag)) in_ecp r t
        × (t.world ≡ t.port.current_mode))
      (Modes.set_mode mode_host Mode.ecp Transfer.rle 1 in_ecp)
set_mode-Agreed_example =
    set_mode-Agreed mode_host mode_host-Device Mode.ecp Transfer.rle 1 Mode.ecprle in_ecp refl
      ecp_number flags_kept

-- A read and a write that must not block.
transfers-Reported_example :
    Returns {A = Received}
      (λ got t.
        (got.0 ≢ E1284.timedout) × (t.port.access_priv.nonblock ≡ sample.port.access_priv.nonblock))
      (block_read sim_host Mode.ecp Transfer.nonblock Transfer.nonblock 0 4 sample)
    × Returns
        (λ r t.
          (r ≢ E1284.timedout) × (t.port.access_priv.nonblock ≡ sample.port.access_priv.nonblock))
        (block_write sim_host Mode.ecp Transfer.nonblock Transfer.nonblock 0 (0x41 ∷ []) sample)
transfers-Reported_example =
    transfers-Reported sim_host sim-Posix Mode.ecp Transfer.nonblock Transfer.nonblock 0 4
      (0x41 ∷ []) sample
