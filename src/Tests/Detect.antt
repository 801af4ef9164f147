-- ===== src/Tests/Detect.antt =====
-- A system whose world is the list of its open files, and looks at the environment on it.
use libieee.Port.Capable
use libieee.Common.{
  Bool-cases, List, [], drop, false, if◌then◌else◌, inl, inr, length, ltb, negsuc, pos, refl, some,
  true, ℤ, ◌&&◌, ◌==◌, ◌∷◌, ◌≡◌, ◌⊎◌,
}
use libieee.Detect.{detect_environment}
use libieee.Detect.Calls.{Known, System}
use libieee.Detect.Files.{Descriptors, detect_environment-files}
use libieee.Detect.Forbidden.{Permitted, detect_environment-Permitted}
use libieee.Port.Host.{Host}
use libieee.Tests.Sim.{time_at}

abbrev pub file_host : Host (List ℤ)
file_host = record {
  clock = record { gettimeofday = λ w. (time_at 0, w); select = λ t w. w };
  inb = λ addr w. (0x90, w);
  outb = λ val addr w. w;
  ioperm = λ from num on w. (pos 0, w);
  open_file = λ name w. (pos 4, pos 4 ∷ w);
  close_file = λ fd w. drop 1 w;
  lseek = λ fd at w. (pos at, w);
  read = λ fd n w. ((pos 0, []), w);
  write = λ fd bytes w. (pos 1, w);
  ioctl = λ fd request w. ((pos 0, 0), w);
  errno = λ w. 0;
  eagain = 11;
  eio = 5;
  enxio = 6;
  o_nonblock = 0x800;
  getfl = λ fd w. (pos 2, w);
  setfl = λ fd flags w. (pos 0, w);
  select_read = λ fd timeout w. (pos 1, w);
  gettime = λ fd w. (time_at 0, w);
  settime = λ fd t w. w;
}

-- The files of type lp cannot be opened, as their names are short, and those of type parport can.
abbrev pub file_system : System (List ℤ)
file_system = record {
  host = file_host;
  open_read_only = λ name w. if ltb (length name) 10 then (negsuc 0, w) else (pos 3, pos 3 ∷ w);
  stat = λ name w. (some (record { is_dir = true; nlink = 4 }), w);
}

file_system-Descriptors : Descriptors file_system (λ w. w)
file_system-Descriptors = record {
  opens_read_only =
      λ name w. elim (Bool-cases (ltb (length name) 10)) [ inl e ↦ rw e refl | inr e ↦ rw e refl ];
  opens = λ name w. refl;
  closes = λ fd rest w h. rw h refl;
  ioctl = λ fd request w. refl;
  ioperm = λ from num on w. refl;
  stat = λ name w. refl;
}

abbrev pub before_all : Known (List ℤ)
before_all = record { capabilities = 0; detected = false; world = pos 9 ∷ [] }

-- Where nothing is forbidden, everything but the second tree is found.
found_all : (detect_environment file_system 0 before_all).1.capabilities ≡ 0x2b
unfolding detect_environment
found_all = refl

detect_environment-files_example :
    (detect_environment file_system Capable.ppdev before_all).1.world ≡ pos 9 ∷ []
detect_environment-files_example =
    detect_environment-files file_system (λ w. w) file_system-Descriptors Capable.ppdev before_all

detect_environment-Permitted_example :
    (((false && Capable.ppdev == 0) ≡ false)
      × Permitted Capable.ppdev
          ((detect_environment file_system Capable.ppdev before_all).1.capabilities))
    ⊎ (((false && Capable.ppdev == 0) ≡ true)
        × (detect_environment file_system Capable.ppdev before_all ≡ (pos 0, before_all)))
detect_environment-Permitted_example =
    detect_environment-Permitted file_system Capable.ppdev before_all
