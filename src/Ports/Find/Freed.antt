-- ===== src/Ports/Find/Freed.antt =====
-- The list that ieee1284_find_ports of src/ports.c makes, and its end.
use mathlib.Core.List.{Mem, mem-cons_self, mem-cons_of_mem, not-mem-nil}
use libieee.Port.Capable
use libieee.Common.{
  Bool, Bool-cases, List, Option, [], and_left, and_right, arith, false, inl, inr, leb, length,
  meets, negsuc, none, not, pos, refl, some, true, ℕ, ℤ, ◌&&◌, ◌||◌, ◌∷◌, ◌≡◌,
}
use libieee.Conf.Reader.{Config, read_config_file}
use libieee.Conf.Words.{text_eq}
use libieee.Detect.{detect_environment}
use libieee.Detect.Calls.{Detecting, Known, pure}
use libieee.Io.{dev_port_name}
use libieee.Port.Machine.{Text}
use libieee.Ports.{Entry, Sorts, add_port, populate_by_guessing}
use libieee.Ports.Added.{WellFormed, add_port-WellFormed, is_fresh}
use libieee.Ports.Find.{Search, deref_entry, ieee1284_find_ports, ieee1284_free_ports, populate}
use libieee.Ports.Paths.{default_name, dots, proc_parport_path, sys_dev_parport_path}
use libieee.Ports.Proc.{
  Lister, Unwritten, add_proc_port, add_proc_ports, add_sys_dev_port, add_sys_dev_ports, number_of,
  populate_from_parport, populate_from_sys_dev_parport,
}
use libieee.Ports.Proc.Short.{ShortNames, all_short, is_short, proc-fits, sys_dev-fits}

-- The ports that a step has come to, where no array overflows.
abbrev Placed : (Text → Text → ℤ) → Option (List Entry) → Type 0
Placed strcmp found = (list : List Entry) × (found ≡ some list) × WellFormed strcmp list

module _ {W : Type 0} (lister : Lister W) (unwritten : Unwritten) {strcmp : Text → Text → ℤ}
    {qsort : List Entry → List Entry} (sorts : Sorts strcmp qsort) where
  add_proc_ports-Placed :
      (capabilities : ℕ) (names : List Text) (list : List Entry) (k : Known W)
      → all_short names ≡ true
      → WellFormed strcmp list
      → Placed strcmp ((add_proc_ports lister unwritten qsort capabilities names list k).0)
  unfolding add_proc_ports add_proc_port
  add_proc_ports-Placed capabilities [] list k short w = (list, refl, w)
  add_proc_ports-Placed capabilities (name ∷ names) list k short w =
      let this : is_short name ≡ true = and_left _ _ short in
      let others : all_short names ≡ true = and_right (is_short name) _ short in
      elim (Bool-cases (dots name)) [
        | inl e ↦ rw e (add_proc_ports-Placed capabilities names list k others w)
        | inr e ↦ rw e (
            rw (proc-fits (meets capabilities Capable.ppdev) name this) (
              add_proc_ports-Placed capabilities names _ _ others
                ((add_port-WellFormed sorts name _ _ _ _ _ list w).0)))
      ]

  add_sys_dev_ports-Placed :
      (capabilities : ℕ) (names : List Text) (list : List Entry) (k : Known W)
      → all_short names ≡ true
      → WellFormed strcmp list
      → Placed strcmp ((add_sys_dev_ports lister unwritten qsort capabilities names list k).0)
  unfolding add_sys_dev_ports add_sys_dev_port
  add_sys_dev_ports-Placed capabilities [] list k short w = (list, refl, w)
  add_sys_dev_ports-Placed capabilities (name ∷ names) list k short w =
      let this : is_short name ≡ true = and_left _ _ short in
      let others : all_short names ≡ true = and_right (is_short name) _ short in
      elim (Bool-cases (dots name || text_eq name default_name)) [
        | inl e ↦ rw e (add_sys_dev_ports-Placed capabilities names list k others w)
        | inr e ↦ rw e (
            rw
              (sys_dev-fits (leb 1 (length (number_of name)) && meets capabilities Capable.ppdev)
                name this)
              (add_sys_dev_ports-Placed capabilities names _ _ others
                ((add_port-WellFormed sorts name _ _ _ _ _ list w).0)))
      ]

  -- The ports of a directory, where there is one.
  listed-Placed :
      (add : List Text → List Entry → Detecting W (Option (List Entry))) (list : List Entry)
      (names : Option (List Text)) (k : Known W)
      → ((ns : List Text) (k : Known W) → names ≡ some ns → Placed strcmp ((add ns list k).0))
      → WellFormed strcmp list
      → Placed strcmp (
          ((elim names as (λ _. Detecting W (Option (List Entry))) [
            | none ↦ pure (some list)
            | some names ↦ add names list
          ])
            k).0)
  listed-Placed add list none k each w = (list, refl, w)
  listed-Placed add list (some names) k each w = each names k refl

  populate-Placed :
      ShortNames lister
      → (list : List Entry) (k : Known W) → WellFormed strcmp list
      → Placed strcmp ((populate lister unwritten qsort list k).0)
  unfolding populate populate_from_sys_dev_parport populate_from_parport populate_by_guessing
  populate-Placed short list k w =
      let sys_dev = lister.directory sys_dev_parport_path k.world in
      let proc = lister.directory proc_parport_path k.world in
      elim (Bool-cases (meets k.capabilities Capable.proc_sys_dev_parport)) [
        | inl e ↦ rw e (
            listed-Placed (add_sys_dev_ports lister unwritten qsort k.capabilities) list sys_dev.0
              (record k { world = sys_dev.1 })
              (λ names k' listed.
                add_sys_dev_ports-Placed k.capabilities names list k'
                  (short sys_dev_parport_path k.world names listed) w)
              w)
        | inr e ↦ elim (Bool-cases (meets k.capabilities Capable.proc_parport)) [
          | inl f ↦ rw e (
              rw f (
                listed-Placed (add_proc_ports lister unwritten qsort k.capabilities) list proc.0
                  (record k { world = proc.1 })
                  (λ names k' listed.
                    add_proc_ports-Placed k.capabilities names list k'
                      (short proc_parport_path k.world names listed) w)
                  w))
          | inr f ↦ rw e (rw f (_, refl, guess _ _ (guess _ _ (guess _ _ w))))
        ]
      ]
    where
      guess :
          (name : Text) (base : ℕ) {list : List Entry}
          → WellFormed strcmp list
          → WellFormed strcmp ((add_port qsort name dev_port_name none base 0 (negsuc 0) list).1)
      guess name base w =
          (add_port-WellFormed sorts name dev_port_name none base 0 (negsuc 0) _ w).0

  no_ports : WellFormed strcmp []
  no_ports = record { room = omega arith; ordered = tt; fresh = λ e m. absurd (not-mem-nil m) }

-- A port that nobody has used is freed by the list's reference.
deref_entry-dead : (e : Entry) → is_fresh e ≡ true → (deref_entry e).live ≡ false
unfolding deref_entry
deref_entry-dead e h = ground (arith, h)

abbrev pub none_live : List Entry → Bool
none_live [] = true
none_live (e ∷ list) = not e.live && none_live list

free_ports-dead :
    (list : List Entry)
    → ((e : Entry) → Mem e list → is_fresh e ≡ true)
    → none_live (ieee1284_free_ports list) ≡ true
unfolding ieee1284_free_ports
free_ports-dead [] h = refl
free_ports-dead (e ∷ list) h = ground (
  arith,
  deref_entry-dead e (h e mem-cons_self),
  free_ports-dead list (λ f m. h f (mem-cons_of_mem e m)),
)

-- A search for ports returns, with success, if the configuration file can be read and no name that is
-- listed in /proc has more than seventeen characters: with a list of fewer than twenty ports, in the
-- order of their names, that nobody has used, whatever the files of /proc hold. Where the list is
-- given back at once, none of its ports is left in memory. The system's qsort sorts.
pub find_ports-Freed :
    {W : Type 0} (lister : Lister W) (unwritten : Unwritten) {strcmp : Text → Text → ℤ}
    {qsort : List Entry → List Entry}
    → Sorts strcmp qsort
    → ShortNames lister
    → (file : Option (List Text)) (conf next : Config) (k : Known W)
    → read_config_file file conf ≡ some next
    → (f : Search W) × (ieee1284_find_ports lister unwritten qsort file conf k ≡ some f)
      × (f.result ≡ pos 0)
      × WellFormed strcmp f.list
      × (none_live (ieee1284_free_ports f.list) ≡ true)
unfolding ieee1284_find_ports
find_ports-Freed lister unwritten {qsort = qsort} sorts short file conf next k reads =
    let looked = (detect_environment lister.system 0 k).1 in
    let search = populate lister unwritten qsort [] looked in
    let (list, placed, w) =
      populate-Placed lister unwritten sorts short [] looked (no_ports lister unwritten sorts) in
    (
      record { result = pos 0; list = list; conf = next; known = search.1 },
      rw (ieee1284_find_ports, reads) (rw placed refl),
      refl,
      w,
      free_ports-dead _ w.fresh,
    )
