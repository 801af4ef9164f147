-- ===== src/Tests/Python.antt =====
-- The extension module for Python on the simulated host.
use libieee.Port.Capable
use libieee.Port.E1284
use libieee.Common.{
  List, [], arith, false, none, not, pos, refl, some, true, ℕ, ℤ, ◌*◌, ◌-◌, ◌∷◌, ◌≡◌,
}
use libieee.Interface.{ieee1284_claim}
use libieee.Port.Machine.{Text}
use libieee.Port.Run.{done}
use libieee.Ports.Find.{Search, ieee1284_find_ports}
use libieee.Python.{Exception, Floats, Reply, error, int_object, invalid_port, parsed, replies}
use libieee.Python.Calls.{Call, Surroundings, perform}
use libieee.Python.Calls.Raised.{Fails-raises, claim_fails, code_of, unclaimed-transfers}
use libieee.Python.Calls.Replies.{is_some, perform-KeepsConvention}
use libieee.Python.Find.{FoundPort, drop_dict, pyieee1284_find_ports}
use libieee.Python.Find.Objects.{has_name, objects, one_if}
use libieee.Python.Find.Owned.{Each, Gone, Owned, find_ports-Owned}
use libieee.Python.Methods.{parport_claim}
use libieee.Python.Transfers.{Read, Write}
use libieee.Tests.Detect.{before_all}
use libieee.Tests.DeviceId.{id_reader}
use libieee.Tests.Search.{no_file, no_text, some_lister, some_lister-ShortNames, unread}
use libieee.Tests.Sim.{sample, sim_methods, unclaimed_sample}
use libieee.Tests.Sorting.{insertion_sort, insertion_sort-Sorts}

-- Floats that are whole seconds.
abbrev whole_seconds : Floats ℕ
whole_seconds = record {
  to_int = λ f. f;
  minus = λ f n. f - n;
  times = λ f n. f * n;
  of_int = λ n. n;
}

abbrev around : Surroundings ℕ ℕ
around = record {
  methods = sim_methods;
  errno = λ w. 5;
  reader = id_reader;
  capabilities = Capable.io;
  disallow_ppdev = false;
  name = [];
  floats = whole_seconds;
  left = record { result = pos 0; upper_half = 0; memory = λ n. [] };
}

-- A second claim is refused.
abbrev refusal : Reply ℕ
refusal = record { object = none; pending = some (error invalid_port) }

claim_twice : ieee1284_claim sim_methods sample ≡ done E1284.invalidport sample
unfolding ieee1284_claim
claim_twice = refl

claim_refused : perform around Call.claim sample ≡ done refusal sample
unfolding perform parport_claim
claim_refused = refl

perform-KeepsConvention_example : is_some refusal.object ≡ not (is_some refusal.pending)
perform-KeepsConvention_example =
    perform-KeepsConvention around Call.claim sample sample refusal claim_refused

Fails-raises_example :
    (e : Exception) × (perform around Call.claim sample
      ≡ done (record { object = none; pending = some e }) sample)
    × (code_of e ≡ E1284.invalidport)
Fails-raises_example = Fails-raises around 9 Call.claim (omega arith) (claim_fails claim_twice)

unclaimed-transfers_example :
    (perform around (Call.read Read.nibble_read (parsed (4, 0))) unclaimed_sample
      ≡ done refusal unclaimed_sample)
    × (perform around (Call.write Write.compat_write (parsed (0x41 ∷ [], 0))) unclaimed_sample
        ≡ done (replies (int_object E1284.invalidport)) unclaimed_sample)
unclaimed-transfers_example =
    unclaimed-transfers around unclaimed_sample 4 0 (0x41 ∷ []) Read.nibble_read Write.compat_write
      refl

find_ports-Owned_example :
    (f : Search (List ℤ)) × (held : List FoundPort) × (ieee1284_find_ports some_lister no_text
        insertion_sort none unread before_all
      ≡ some f)
    × (pyieee1284_find_ports some_lister no_text insertion_sort 5 none unread before_all (parsed 0)
        ≡ some (record { dict = some held; pending = none }))
    × Each Owned held
    × Each Gone (drop_dict held)
    × ((name : Text) → objects name held ≡ one_if (has_name name f.list))
find_ports-Owned_example =
    find_ports-Owned some_lister no_text insertion_sort-Sorts some_lister-ShortNames 5 none unread
      (record { disallow_ppdev = false; config_read = true }) before_all 0 no_file
