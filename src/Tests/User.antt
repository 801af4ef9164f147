-- ===== src/Tests/User.antt =====
-- Witnesses for the guards and the reference count of src/interface.c.
use libieee.Port.E1284
use libieee.Common.{List, [], arith, false, pos, refl, ℕ, ◌∷◌, ◌≡◌}
use libieee.Interface.{deref_port, ieee1284_close, ieee1284_unref}
use libieee.Interface.References.{
  Counted, Reach-Counted, and_call, close_port, drop_reference, no_calls,
}
use libieee.Io.{cleanup, io_access_methods}
use libieee.Io.Opened.{io_cleanup-Stands, io_init-Stands}
use libieee.Port.Life.{LifetimeKept, lasts}
use libieee.Port.Machine.{Machine, Table}
use libieee.Port.Methods.{Methods}
use libieee.Port.Run.{done}
use libieee.Tables.{access_methods}
use libieee.Tables.Lifetime.{access_methods-LifetimeKept}
use libieee.Tests.Sim.{sample, sample_port, sim_host, sim_rounds}

abbrev two_bytes : List ℕ
two_bytes = 0x41 ∷ 0x42 ∷ []

-- The tables of the library, on the simulated host.
abbrev sim_tables : Table → Methods ℕ
sim_tables = access_methods sim_host sim_rounds (io_access_methods sim_host sim_rounds)

sim_tables-LifetimeKept : LifetimeKept sim_tables 0
sim_tables-LifetimeKept =
    access_methods-LifetimeKept sim_host sim_rounds _ 0
      (λ _ flags caps s. io_init-Stands sim_host flags caps s)
      (λ s. lasts s (io_cleanup-Stands sim_host s))

-- The open port after its close, with one reference outside the library, and without any.
abbrev shut : Machine ℕ
shut = record sample { port = record sample_port { opened = false; ref = pos 1 } }

abbrev freed : Machine ℕ
freed = record sample { port = record sample_port { opened = false; ref = pos 0 }; live = false }

sample-Counted : Counted 1 sample
sample-Counted = record { ref = refl; live = ground arith }

close_sample : ieee1284_close sim_tables sample ≡ done E1284.ok shut
unfolding ieee1284_close deref_port cleanup
close_sample = refl

unref_shut : ieee1284_unref sim_tables shut ≡ done (pos 0) freed
unfolding ieee1284_unref deref_port
unref_shut = refl

-- An open port is closed, and the last reference is given back: the port is freed.
Reach-Counted_example : Counted 0 freed
Reach-Counted_example =
    Reach-Counted sim_tables-LifetimeKept {disallow_ppdev = false} sample-Counted (
      and_call (and_call no_calls (close_port E1284.ok refl close_sample))
        (drop_reference (pos 0) refl unref_shut))
