-- ===== src/Tests/DeviceId.antt =====
-- A device that sends a Device ID, a system that has one in its files, and the theorems about them.
use libieee.Port.Capable
use libieee.Common.{
  List, [], arith, false, length, negsuc, pos, refl, some, suc, take, zero, ℕ, ◌∪◌, ◌∷◌, ◌≡◌, ◌≤◌,
}
use libieee.DeviceId.{
  Reader, autoprobe, file_of, get_from_proc_parport, ieee1284_get_deviceid, proc_parport_dir,
  read_file,
}
use libieee.DeviceId.Autoprobe.{Found, autoprobe-Found}
use libieee.DeviceId.Buffer.{size_sub}
use libieee.DeviceId.Fetched.{Working}
use libieee.DeviceId.Files.{Reads}
use libieee.DeviceId.Kept.{Ended, get_deviceid-Ended}
use libieee.Port.Machine.{Machine, Table}
use libieee.Port.Methods.{Methods}
use libieee.Port.Returns.{Returns}
use libieee.Port.Run.{done}
use libieee.System.{linux_methods}
use libieee.System.Works.{linux_methods-Working}
use libieee.Tests.Sim.{sample, sample_port, sim-Ticks, sim-TimelyInput, sim_host, sim_rounds}

abbrev id_text : List ℕ
id_text = b'M' ∷ b'F' ∷ b'G' ∷ b':' ∷ b'A' ∷ b';' ∷ []

length-take : {A : Type 0} (n : ℕ) (xs : List A) → length (take n xs) ≤ n
length-take zero xs = omega arith
length-take (suc n) [] = omega arith
length-take (suc n) (x ∷ xs) = omega (arith, length-take n xs)

abbrev pub id_reader : Reader ℕ
id_reader = record {
  host = record sim_host { read = λ fd n w. ((pos (length (take n id_text)), take n id_text), w) };
  open_read_only = λ name w. (negsuc 0, w);
  decimal = λ d. b'0' ∷ [];
}

id_reader-Reads : Reads id_reader
id_reader-Reads = record {
  stored = λ fd size w. length-take size id_text;
  reported = λ fd size w. length-take size id_text;
}

abbrev closed_sample : Machine ℕ
closed_sample = record sample {
  port = record sample_port { opened = false; claimed = false; ref = pos 1 };
}

abbrev six_zeroes : List ℕ
six_zeroes = 0 ∷ 0 ∷ 0 ∷ 0 ∷ 0 ∷ 0 ∷ []

-- The library's own tables on a system with I/O ports and neither ppdev nor LPT.
abbrev io_only : ℕ
io_only = Capable.io ∪ Capable.proc_sys_dev_parport

abbrev own_methods : Table → Methods ℕ
own_methods = linux_methods sim_host sim_rounds

own_methods-Working : Working own_methods io_only
own_methods-Working =
    linux_methods-Working sim_host sim-Ticks sim-TimelyInput sim_rounds (omega arith) io_only refl
      refl

-- No file opens, so the device is asked.
get_deviceid-Ended_example :
    Returns
      (Ended own_methods io_only own_methods-Working 6
        (omega arith)
        (omega arith)
        closed_sample
        0
        refl
        refl)
      (ieee1284_get_deviceid own_methods id_reader io_only false
        (b'0' ∷ [])
        (negsuc 0)
        0
        6
        six_zeroes
        closed_sample)
get_deviceid-Ended_example =
    get_deviceid-Ended own_methods io_only own_methods-Working 6 (omega arith) (omega arith)
      closed_sample 0 refl refl id_reader id_reader-Reads false (b'0' ∷ []) (negsuc 0) 0 six_zeroes
      refl

-- A system whose files open.
abbrev file_reader : Reader ℕ
file_reader = record id_reader { open_read_only = λ name w. (pos 3, w) }

reads_text :
    read_file file_reader
      (file_of file_reader proc_parport_dir (b'0' ∷ []) autoprobe (negsuc 0))
      (size_sub 9 2)
      closed_sample
    ≡ done (some (pos 6, id_text)) closed_sample
unfolding read_file
reads_text = refl

autoprobe-Found_example :
    Returns
      (λ r _. Found file_reader 9 1 2 (0 ∷ 0 ∷ 0 ∷ 0 ∷ 0 ∷ 0 ∷ 7 ∷ []) id_text r)
      (get_from_proc_parport file_reader
        (b'0' ∷ [])
        (negsuc 0)
        9
        (1 ∷ 2 ∷ 0 ∷ 0 ∷ 0 ∷ 0 ∷ 0 ∷ 0 ∷ 7 ∷ [])
        closed_sample)
autoprobe-Found_example =
    autoprobe-Found file_reader 9 1 2 (0 ∷ 0 ∷ 0 ∷ 0 ∷ 0 ∷ 0 ∷ 7 ∷ []) (b'0' ∷ []) (negsuc 0)
      id_text closed_sample closed_sample refl reads_text refl (omega arith)
