-- ===== src/Tests/Solaris.antt =====
-- A kernel for the driver of Solaris, whose world is what one unit has and what was sent to ports.
use libieee.Common.{
  List, Option, [], ap, false, if◌then◌else◌, negsuc, none, pos, refl, some, true, ℕ, ℤ, ◌==◌, ◌∷◌,
  ◌≡◌,
}
use libieee.Port.Machine.{Machine}
use libieee.Port.Returns.{Returns}
use libieee.Solaris.{IopBuf}
use libieee.Solaris.Access.{SolarisHost, raw_inb, raw_outb}
use libieee.Solaris.Access.Reached.{HandsOn, transfers-Reached}
use libieee.Solaris.Driver.{Kernel, iopattach, iopioctl}
use libieee.Solaris.Driver.Ports.{Serving}
use libieee.Solaris.Driver.Units.{Accounts, Attached, Resources, attach-Attached, no_resources}
use libieee.Tests.Sim.{sample_port}

record Box : Type 0 where
  unit : Resources
  sent : List (ℕ × ℕ)

abbrev box_kernel : Kernel Box
box_kernel = record {
  soft_state_init = λ b. (pos 0, b);
  soft_state_fini = λ b. b;
  mod_install = λ b. (pos 0, b);
  mod_remove = λ b. (pos 0, b);
  soft_state_zalloc = λ i b. (true, record b { unit = record (b.unit) { soft_state = true } });
  get_soft_state = λ i b. b.unit.soft_state;
  soft_state_free = λ i b. record b { unit = record (b.unit) { soft_state = false } };
  set_driver_private = λ i b. b;
  mutex_init = λ i b. record b { unit = record (b.unit) { mutex = true } };
  mutex_destroy = λ i b. record b { unit = record (b.unit) { mutex = false } };
  mutex_enter = λ i b. b;
  mutex_exit = λ i b. b;
  create_minor_node = λ i b. (true, record b { unit = record (b.unit) { minor_node = true } });
  remove_minor_node = λ i b. record b { unit = record (b.unit) { minor_node = false } };
  report_dev = λ i b. b;
  lacks_privilege = λ b. true;
  copyin = λ b. (false, b);
  copyout = λ b. (false, b);
  inb = λ port b. (0x90, b);
  outb = λ port value b. record b { sent = (port, value) ∷ b.sent };
  efault = 14;
  einval = 22;
  enxio = 6;
  eacces = 13;
}

abbrev unattached : Box
unattached = record { unit = no_resources; sent = [] }

box_kernel-Accounts : Accounts box_kernel 0 (λ b. b.unit)
box_kernel-Accounts = record {
  zalloc = λ b. refl;
  free = λ b. refl;
  private = λ b. refl;
  init = λ b. refl;
  destroy = λ b. refl;
  create = λ b. refl;
  remove = λ b. refl;
  report = λ b. refl;
  found = λ b. refl;
}

attach-Attached_example :
    Attached box_kernel 0 box_kernel-Accounts (iopattach box_kernel true 0 unattached)
attach-Attached_example = attach-Attached box_kernel 0 box_kernel-Accounts true unattached refl

-- The kernel with a unit that is always there.
abbrev serving_kernel : Kernel Box
serving_kernel = record box_kernel { get_soft_state = λ i b. true }

serving_kernel-Serving : Serving serving_kernel 0 (λ b. b.sent) (λ b port. 0x90)
serving_kernel-Serving = record {
  there = λ b. refl;
  reads = λ b. refl;
  writes = λ b. refl;
  enters = λ b. (refl, refl);
  exits = λ b. refl;
  copies_in = λ b. (refl, refl);
  copies_out = λ b. refl;
  inputs = λ port b. (refl, refl);
  outputs = λ port value b. refl;
}

-- What ioctl makes of an answer of the driver.
abbrev answer : IopBuf → Box → Option ((ℕ × IopBuf) × Box) → (ℤ × IopBuf) × Box
answer buf b none = ((negsuc 0, buf), b)
answer buf b (some ((result, buf'), b')) = ((if result == 0 then pos 0 else negsuc 0, buf'), b')

-- The system that hands requests on to that unit.
abbrev box_system : SolarisHost Box
box_system = record {
  open_file = λ name b. (pos 3, b);
  close_file = λ fd b. b;
  iop_ioctl = λ fd cmd buf b. answer buf b (iopioctl serving_kernel 0 cmd buf b);
}

abbrev box_port : Machine Box
box_port = record { port = sample_port; filename = []; live = true; world = unattached }

box_system-HandsOn : HandsOn box_system serving_kernel box_port.port.fd 0
box_system-HandsOn = record { handed = λ cmd buf buf' result w w' e. ap (answer buf w) e }

transfers-Reached_example :
    Returns
      (λ _ t. (t.port ≡ box_port.port) × (t.world.sent ≡ (0x378, 0x41) ∷ box_port.world.sent))
      (raw_outb box_system 0x41 0x378 box_port)
    × Returns
        (λ byte t. (byte ≡ 0x90) × (t.port ≡ box_port.port) × (t.world.sent ≡ box_port.world.sent))
        (raw_inb box_system 7 0x378 box_port)
transfers-Reached_example =
    transfers-Reached box_system serving_kernel 0 serving_kernel-Serving box_port box_system-HandsOn
      0x41 0x378 7
