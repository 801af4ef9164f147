-- ===== src/Ports/Find.antt =====
-- ieee1284_find_ports, ieee1284_free_ports and deref_port of src/ports.c. An array of no ports is
-- the empty list, whether it has been freed or not.
pub mod Freed
use libieee.Port.Capable
use libieee.Common.{
  List, Option, [], decr, false, if◌then◌else◌, meets, none, pos, some, truthy, ℤ, ◌∷◌,
}
use libieee.Conf.Reader.{Config, read_config_file}
use libieee.Detect.{detect_environment}
use libieee.Detect.Calls.{Detecting, Known}
use libieee.Port.Machine.{Port, Text}
use libieee.Ports.{Entry, populate_by_guessing}
use libieee.Ports.Proc.{Lister, Unwritten, populate_from_parport, populate_from_sys_dev_parport}

-- What a call of ieee1284_find_ports leaves: its result, the list, and the variables of src/conf.c
-- and src/detect.c.
pub record Search (W : Type 0) : Type 0 where
  pub result : ℤ
  pub list : List Entry
  pub conf : Config
  pub known : Known W

module _ {W : Type 0} (lister : Lister W) (unwritten : Unwritten)
    (qsort : List Entry → List Entry) where
  unfoldable pub populate : List Entry → Detecting W (Option (List Entry))
  unfolding populate_from_sys_dev_parport populate_from_parport populate_by_guessing
  populate list k =
      if meets k.capabilities Capable.proc_sys_dev_parport
      then populate_from_sys_dev_parport lister unwritten qsort k.capabilities list k
      else if meets k.capabilities Capable.proc_parport
      then populate_from_parport lister unwritten qsort k.capabilities list k
      else (some (populate_by_guessing qsort list), k)

  -- The configuration file is given by what it holds; nothing, where reading it is undefined, or where
  -- a name in /proc overflows an array.
  unfoldable pub ieee1284_find_ports : Option (List Text) → Config → Known W → Option (Search W)
  unfolding populate
  ieee1284_find_ports file conf k = elim (read_config_file file conf) [
    | none ↦ none
    | some conf ↦
        let looked = (detect_environment lister.system 0 k).1 in
        let (ports, known) = populate [] looked in
        elim ports [
          | none ↦ none
          | some list ↦ some (record { result = pos 0; list = list; conf = conf; known = known })
        ]
  ]

-- deref_port, of a port in the list: the count, and whether it is still in memory.
unfoldable pub deref_entry : Entry → Entry
deref_entry e =
    let count = decr e.priv.ref in
    let p : Port = record (e.priv) { ref = count } in
    if truthy count then record e { priv = p } else record e { priv = p; live = false }

-- What ieee1284_free_ports leaves of the ports of a list; the list itself is empty then.
unfoldable pub ieee1284_free_ports : List Entry → List Entry
unfolding deref_entry
ieee1284_free_ports [] = []
ieee1284_free_ports (e ∷ list) = deref_entry e ∷ ieee1284_free_ports list
