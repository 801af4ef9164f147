-- ===== src/Tests/Lpt.antt =====
-- A ParallelVdm device that shows Select, and the theorems about the table of Windows NT.
use libieee.Common.{List, [], is_neg, pos, refl, ℕ, ◌∷◌, ◌≡◌}
use libieee.Io.{io_pins}
use libieee.Io.Registers.{pins_of}
use libieee.Lpt.{NtHost, lpt_pins}
use libieee.Lpt.Lines.{LineOp, do_ops, frob_lines, lines_after, read_control-same, write_lines}
use libieee.Port.Machine.{Machine, Table}
use libieee.Port.Returns.{Returns}
use libieee.Port.Run.{◌>>◌}
use libieee.Tests.Sim.{sample, sample_port, sim_clock, sim_host, sim_rounds}

abbrev nt_host : NtHost ℕ
nt_host = record {
  clock = sim_clock;
  create_file = λ name w. (pos 3, w);
  is_invalid_handle = is_neg;
  close_handle = λ fd w. w;
  device_io_control = λ fd code bytes w. (0x90, w);
}

abbrev nt_sample : Machine ℕ
nt_sample = record sample { port = record sample_port { fn = Table.lpt_access_methods } }

-- A write that asks for the reverse direction too, and a frob of one line.
abbrev two_ops : List LineOp
two_ops = write_lines 0x2c ∷ frob_lines 0x02 0x02 ∷ []

read_control-same_example :
    Returns
      (λ r _. r ≡ pos (lines_after (pins_of 0x0c) two_ops))
      ((do do_ops (io_pins sim_host sim_rounds) two_ops; (io_pins sim_host sim_rounds).read_control)
        sample)
    × Returns
        (λ r _. r ≡ pos (lines_after (pins_of 0x0c) two_ops))
        ((do
          do_ops (lpt_pins nt_host sim_rounds) two_ops
          (lpt_pins nt_host sim_rounds).read_control)
          nt_sample)
read_control-same_example =
    read_control-same sim_host nt_host sim_rounds two_ops sample nt_sample refl
