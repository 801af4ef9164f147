-- ===== src/Python/Find/Owned.antt =====
-- Who holds the ports that a Python program has found, and that none of them is lost or kept too
-- long.
use mathlib.Core.List.{Mem, mem-cons_self, mem-cons_of_mem}
use libieee.Common.{
  Bool-cases, List, Option, [], ap, arith, false, if◌then◌else◌, inl, inr, none, pos, refl, some,
  sym, true, ℕ, ℤ, ◌&&◌, ◌++◌, ◌+◌, ◌∙◌, ◌∷◌, ◌≡◌,
}
use libieee.Conf.Reader.{Config, read_config_file}
use libieee.Conf.Words.{text_eq}
use libieee.Detect.Calls.{Known}
use libieee.Port.Machine.{Text}
use libieee.Ports.{Entry, Sorts}
use libieee.Ports.Added.{is_fresh}
use libieee.Ports.Find.{Search, deref_entry, ieee1284_find_ports}
use libieee.Ports.Find.Freed.{find_ports-Freed}
use libieee.Ports.Proc.{Lister, Unwritten}
use libieee.Ports.Proc.Short.{ShortNames}
use libieee.Python.{parsed}
use libieee.Python.Find.{
  FoundPort, add_object, add_objects, after_search, dealloc, drop_dict, find_reply, free_list,
  pyieee1284_find_ports, ref_entry, replace_item,
}
use libieee.Python.Find.Objects.{has_name, objects, objects-found, one_if}

-- Every port of the list.
abbrev pub Each : (FoundPort → Type 0) → List FoundPort → Type 0
Each P [] = Unit {0}
Each P (h ∷ held) = P h × Each P held

-- A port is in memory exactly if its object is in the dictionary, and that has the only reference.
abbrev pub Owned : FoundPort → Type 0
Owned h = (h.port.live ≡ h.in_dict) × (h.port.priv.ref ≡ pos (one_if h.in_dict))

-- While the list is still held.
abbrev Listed : FoundPort → Type 0
Listed h = (h.port.live ≡ true) × (h.port.priv.ref ≡ pos (1 + one_if h.in_dict))

-- An object goes while the list holds its port: one reference is left.
dealloc-Listed : (h : FoundPort) → Listed h → h.in_dict ≡ true → Listed (dealloc h)
unfolding dealloc deref_entry
dealloc-Listed h l e = let two : h.port.priv.ref ≡ pos 2 = l.1 ∙ rw e refl in rw two (l.0, refl)

replaced-Listed :
    (name : Text) (h : FoundPort)
    → Listed h
    → Listed (if h.in_dict && text_eq h.port.name name then dealloc h else h)
replaced-Listed name h l = elim (Bool-cases (h.in_dict && text_eq h.port.name name)) [
  | inl e ↦ rw e (dealloc-Listed h l (ground (arith, e)))
  | inr e ↦ rw e l
]

replace_item-Listed :
    (name : Text) (held : List FoundPort) → Each Listed held → Each Listed (replace_item name held)
unfolding replace_item
replace_item-Listed name [] each = tt
replace_item-Listed name (h ∷ held) each =
    (replaced-Listed name h each.0, replace_item-Listed name held each.1)

Each-append :
    (P : FoundPort → Type 0) (xs : List FoundPort) (h : FoundPort)
    → Each P xs
    → P h
    → Each P (xs ++ h ∷ [])
Each-append P [] h each last = (last, tt)
Each-append P (x ∷ xs) h each last = (each.0, Each-append P xs h each.1 last)

ref_entry-Listed :
    (e : Entry) → is_fresh e ≡ true → Listed (record { port = ref_entry e; in_dict = true })
unfolding ref_entry
ref_entry-Listed e h = ground (arith, h)

add_objects-Listed :
    (list : List Entry) (held : List FoundPort)
    → ((e : Entry) → Mem e list → is_fresh e ≡ true)
    → Each Listed held
    → Each Listed (add_objects list held)
unfolding add_objects add_object
add_objects-Listed [] held fresh each = each
add_objects-Listed (e ∷ list) held fresh each =
    add_objects-Listed list (add_object e held) (λ f m. fresh f (mem-cons_of_mem e m))
      (Each-append Listed (replace_item e.name held) _ (replace_item-Listed e.name held each)
        (ref_entry-Listed e (fresh e mem-cons_self)))

free_list-Owned : (held : List FoundPort) → Each Listed held → Each Owned (free_list held)
unfolding free_list deref_entry
free_list-Owned [] each = tt
free_list-Owned (h ∷ held) each = (freed h each.0, free_list-Owned held each.1)
  where
    freed : (h : FoundPort) → Listed h → Owned (record h { port = deref_entry h.port })
    freed h l = elim (Bool-cases h.in_dict) [
      | inl e ↦
          let two : h.port.priv.ref ≡ pos 2 = l.1 ∙ rw e refl in
          rw two (l.0 ∙ sym e, ap (λ b. pos (one_if b)) (sym e))
      | inr e ↦
          let one : h.port.priv.ref ≡ pos 1 = l.1 ∙ rw e refl in
          rw one (sym e, ap (λ b. pos (one_if b)) (sym e))
    ]

-- The end of the dictionary.
abbrev pub Gone : FoundPort → Type 0
Gone h = h.port.live ≡ false

dropped-Gone : (h : FoundPort) → Owned h → Gone (if h.in_dict then dealloc h else h)
unfolding dealloc deref_entry
dropped-Gone h o = elim (Bool-cases h.in_dict) [
  | inl e ↦ let one : h.port.priv.ref ≡ pos 1 = o.1 ∙ rw e refl in rw e (rw one refl)
  | inr e ↦ rw e (o.0 ∙ e)
]

drop_dict-Gone : (held : List FoundPort) → Each Owned held → Each Gone (drop_dict held)
unfolding drop_dict
drop_dict-Gone [] each = tt
drop_dict-Gone (h ∷ held) each = (dropped-Gone h each.0, drop_dict-Gone held each.1)

-- A Python program that looks for ports is given a dictionary with one object for each name of a
-- port, and none else, if the configuration file can be read and no name that is listed in /proc has
-- more than seventeen characters. Each object has the only reference to its port, and the ports with
-- no object are freed; when the dictionary goes, they all are. The system's qsort sorts.
pub find_ports-Owned :
    {W : Type 0} (lister : Lister W) (unwritten : Unwritten) {strcmp : Text → Text → ℤ}
    {qsort : List Entry → List Entry}
    → Sorts strcmp qsort
    → ShortNames lister
    → (errno : ℕ) (file : Option (List Text)) (conf next : Config) (k : Known W) (flags : ℕ)
    → read_config_file file conf ≡ some next
    → (f : Search W) × (held : List FoundPort) × (ieee1284_find_ports lister unwritten qsort file
          conf k
        ≡ some f)
      × (pyieee1284_find_ports lister unwritten qsort errno file conf k (parsed flags)
          ≡ some (record { dict = some held; pending = none }))
      × Each Owned held
      × Each Gone (drop_dict held)
      × ((name : Text) → objects name held ≡ one_if (has_name name f.list))
unfolding pyieee1284_find_ports after_search find_reply
find_ports-Owned lister unwritten sorts short errno file conf next k flags reads =
    let (f, searched, fine, w, _) =
      find_ports-Freed lister unwritten sorts short file conf next k reads in
    let owned = free_list-Owned _ (add_objects-Listed f.list [] w.fresh tt) in
    (
      f,
      free_list (add_objects f.list []),
      searched,
      ap (after_search errno) searched ∙ ap (λ r. some (find_reply errno r f.list)) fine,
      owned,
      drop_dict-Gone _ owned,
      λ name. objects-found name f.list,
    )
