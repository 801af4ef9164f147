-- ===== src/Tests/System.antt =====
-- An open on the system of the other tests.
use libieee.Port.Capable
use libieee.Common.{List, [], arith, false, none, pos, refl, some, true, ℤ, ◌∷◌, ◌≡◌}
use libieee.Detect.{detect_environment}
use libieee.DeviceId.Fetched.{Working}
use libieee.Interface.{ieee1284_close}
use libieee.Port.Descriptors.{HostFiles}
use libieee.Port.Machine.{Machine}
use libieee.Port.Returns.{Returns}
use libieee.Port.Run.{◌>>◌}
use libieee.State.{ieee1284_open}
use libieee.System.{linux_methods}
use libieee.System.Files.{open-close-files}
use libieee.System.Opens.{Opens, open-Found}
use libieee.System.Works.{linux_methods-Working}
use libieee.Tests.Detect.{before_all, file_host, file_system}
use libieee.Tests.Sim.{sample_port, sim-Ticks, sim-TimelyInput, sim_host, sim_rounds}

-- The sample's port, closed, in the world of the open files.
abbrev shut_port : Machine (List ℤ)
shut_port = record {
  port = record sample_port { opened = false };
  filename = [];
  live = true;
  world = pos 9 ∷ [];
}

-- ppdev is forbidden, and the port is opened by another method or not at all.
open-Found_example : Returns (Opens file_system 1 Capable.ppdev before_all false 0 none shut_port) (
    ieee1284_open
      (linux_methods file_host 1)
      ((detect_environment file_system Capable.ppdev before_all).1.capabilities)
      false
      0
      none
      shut_port)
open-Found_example =
    open-Found file_system 1 Capable.ppdev before_all false 0 none shut_port refl refl

file_host-HostFiles : HostFiles file_host (λ w. w)
file_host-HostFiles = record {
  opens = λ name w. refl;
  closes = λ fd rest w h. rw h refl;
  ioctl = λ fd request w. refl;
  ioperm = λ from num on w. refl;
}

-- The port's device is opened by ppdev, and closed.
open-close-files_example :
    Returns
      (λ _ t. t.world ≡ pos 9 ∷ [])
      ((do
        ieee1284_open (linux_methods file_host 1) Capable.ppdev false 0 (some 0)
        ieee1284_close (linux_methods file_host 1))
        shut_port)
open-close-files_example =
    open-close-files file_host 1 file_host-HostFiles Capable.ppdev false 0 (some 0) shut_port refl
      refl

-- The library's own tables on a system with I/O ports alone.
linux_methods-Working_example : Working (linux_methods sim_host sim_rounds) Capable.io
linux_methods-Working_example =
    linux_methods-Working sim_host sim-Ticks sim-TimelyInput sim_rounds (omega arith) Capable.io
      refl refl
