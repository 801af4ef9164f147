-- ===== src/Tests/Transfers.antt =====
-- Witnesses for the block transfers of src/default.c.
use libieee.Port.Mode
use libieee.Common.{List, [], arith, length, none, pos, refl, ◌++◌, ◌+◌, ◌∷◌, ◌≡◌}
use libieee.Default.Byte.{default_byte_read}
use libieee.Default.Compat.{default_compat_write}
use libieee.Default.Compat.Printer.{Written, compat_write-Written}
use libieee.Default.Counts.{Sent, byte_and_epp-Counted}
use libieee.Default.EcpRead.{Verdict, default_ecp_read_data}
use libieee.Default.EcpRead.Bounds.{Reversed, ecp_read_data-Filled}
use libieee.Default.EcpRead.Runs.{Item, decode, decode-wire, expand, plain, repeated, wire}
use libieee.Default.Epp.{default_epp_read_data, default_epp_write_data}
use libieee.Default.Link.{default_ecp_rev_to_fwd, default_terminate, set_mode}
use libieee.Default.Nibble.{default_nibble_read}
use libieee.Default.Nibble.Counts.{Delivered, nibble_read-Delivered}
use libieee.Default.Stored.{Fetched}
use libieee.Port.Delay.{advancing-Waits}
use libieee.Port.Returns.{Returns, returns}
use libieee.Port.Run.{pure}
use libieee.Tests.Bench.{
  bench, bench-Offers, bench-QuietData, bench-QuietPins, bench_clock, bench_printer, on_bench,
}
use libieee.Tests.Link.{sim-Terminates}
use libieee.Tests.Sim.{sample, sim-Advances, sim-QuietData, sim-QuietPins, sim_clock, sim_pins}

-- Three bytes read in ECP mode, on a link that is already turned.
ecp_read_data-Filled_example :
    Returns (Reversed on_bench 3) (default_ecp_read_data bench 1 (pure (pos 0)) 0 3 on_bench)
ecp_read_data-Filled_example =
    ecp_read_data-Filled bench-QuietPins bench-QuietData 1 bench-Offers {turn = pure (pos 0)}
      (λ s. returns (refl, λ failed. absurd (cc))) 0 3 on_bench

-- 'A', then 'B' four times.
abbrev some_items : List Item
some_items = plain 0x41 ∷ repeated 3 0x42 ∷ []

decode-wire_example :
    decode 5 (record { count = 0; rle = none; stored = [] }) (wire 0x80 some_items)
    ≡ Verdict.accept (record {
      count = 0 + length (expand some_items);
      rle = none;
      stored = [] ++ expand some_items;
    })
decode-wire_example = decode-wire 5 0x80 some_items 0 [] (refl, tt) (omega arith)

compat_write-Written_example :
    Returns
      (Written bench_printer (0x41 ∷ 0x42 ∷ []) on_bench 0)
      (default_compat_write bench_clock bench (set_mode Mode.compat) 0 (0x41 ∷ 0x42 ∷ []) on_bench)
compat_write-Written_example =
    compat_write-Written bench_printer {terminate = set_mode Mode.compat}
      (λ s. returns (refl, refl)) 0 (0x41 ∷ 0x42 ∷ []) on_bench refl

nibble_read-Delivered_example :
    Returns (Delivered sim-QuietPins sim-Terminates 4 sample.port.current_mode) (
      default_nibble_read sim_pins
        (default_terminate sim_pins (default_ecp_rev_to_fwd sim_pins))
        0
        4
        sample)
nibble_read-Delivered_example = nibble_read-Delivered sim-QuietPins sim-Terminates 0 4 sample

byte_and_epp-Counted_example :
    Returns (Fetched 4 sample) (default_byte_read sim_clock 6 sim_pins 0 4 sample)
    × Returns (Fetched 4 sample) (default_epp_read_data sim_clock 6 sim_pins 0 4 sample)
    × Returns
        (Sent (0x41 ∷ 0x42 ∷ []) sample)
        (default_epp_write_data sim_clock 6 sim_pins 0 (0x41 ∷ 0x42 ∷ []) sample)
byte_and_epp-Counted_example =
    byte_and_epp-Counted sim-QuietPins sim-QuietData sim_clock 6
      (advancing-Waits sim_clock 1 sim-Advances 6 5 (omega arith)) 0 4 (0x41 ∷ 0x42 ∷ []) sample
