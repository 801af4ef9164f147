-- ===== src/Python/Find.antt =====
-- pyieee1284_find_ports of src/ieee1284module.c, with the objects that it makes and their end.
pub mod Objects
pub mod Owned
use libieee.Common.{
  Bool, List, Option, [], false, if◌then◌else◌, incr, none, some, true, truthy, ℕ, ℤ, ◌&&◌, ◌++◌,
  ◌∷◌,
}
use libieee.Conf.Reader.{Config}
use libieee.Conf.Words.{text_eq}
use libieee.Detect.Calls.{Known}
use libieee.Port.Machine.{Text}
use libieee.Ports.{Entry}
use libieee.Ports.Find.{Search, deref_entry, ieee1284_find_ports}
use libieee.Ports.Proc.{Lister, Unwritten}
use libieee.Python.{Exception, Parsed, handle_error, parsed, refused}

-- A port, and whether an object for it is in the dictionary. The key is the port's name, so the
-- dictionary is given by the ports that are marked.
pub record FoundPort : Type 0 where
  pub port : Entry
  pub in_dict : Bool

-- ieee1284_ref, of a port in memory.
unfoldable pub ref_entry : Entry → Entry
ref_entry e = record e { priv = record (e.priv) { ref = incr e.priv.ref } }

-- Parport_dealloc. ieee1284_unref is deref_port on a port that is not open.
unfoldable pub dealloc : FoundPort → FoundPort
unfolding deref_entry
dealloc h = record { port = deref_entry h.port; in_dict = false }

-- PyDict_SetItemString: an object that was there under the name is no longer held, and goes.
unfoldable pub replace_item : Text → List FoundPort → List FoundPort
unfolding dealloc
replace_item name [] = []
replace_item name (h ∷ held) =
    (if h.in_dict && text_eq h.port.name name then dealloc h else h) ∷ replace_item name held

-- One round of the loop: parport_object, and its place in the dictionary.
unfoldable pub add_object : Entry → List FoundPort → List FoundPort
unfolding ref_entry replace_item
add_object e held = replace_item e.name held ++ record { port = ref_entry e; in_dict = true } ∷ []

unfoldable pub add_objects : List Entry → List FoundPort → List FoundPort
unfolding add_object
add_objects [] held = held
add_objects (e ∷ list) held = add_objects list (add_object e held)

-- ieee1284_free_ports, of the ports that the objects have too.
unfoldable pub free_list : List FoundPort → List FoundPort
unfolding deref_entry
free_list [] = []
free_list (h ∷ held) = record h { port = deref_entry h.port } ∷ free_list held

-- The ports, with the dictionary that is given back; none for NULL.
pub record FindReply : Type 0 where
  pub dict : Option (List FoundPort)
  pub pending : Option Exception

-- From the result of ieee1284_find_ports on.
unfoldable pub find_reply : (errno : ℕ) → ℤ → List Entry → FindReply
unfolding add_objects free_list handle_error
find_reply errno err list =
    if truthy err
    then record { dict = none; pending = handle_error errno err }
    else record { dict = some (free_list (add_objects list [])); pending = none }

after_search : {W : Type 0} → (errno : ℕ) → Option (Search W) → Option FindReply
unfolding find_reply
after_search errno none = none
after_search errno (some f) = some (find_reply errno f.result f.list)

-- The search itself, where reading the configuration file is defined.
unfoldable pub pyieee1284_find_ports :
    {W : Type 0} (lister : Lister W) (unwritten : Unwritten) (qsort : List Entry → List Entry)
    (errno : ℕ) (file : Option (List Text)) (conf : Config) (k : Known W)
    → Parsed ℕ
    → Option FindReply
unfolding after_search
pyieee1284_find_ports lister unwritten qsort errno file conf k (parsed flags) =
    after_search errno (ieee1284_find_ports lister unwritten qsort file conf k)
pyieee1284_find_ports lister unwritten qsort errno file conf k (refused e) =
    some (record { dict = none; pending = some e })

-- The end of the dictionary: each object in it goes.
unfoldable pub drop_dict : List FoundPort → List FoundPort
unfolding dealloc
drop_dict [] = []
drop_dict (h ∷ held) = (if h.in_dict then dealloc h else h) ∷ drop_dict held
