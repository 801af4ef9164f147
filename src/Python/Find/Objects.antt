-- ===== src/Python/Find/Objects.antt =====
-- The objects of the dictionary, counted by name.
use libieee.Common.{
  Bool, Bool-cases, List, [], ap, arith, false, if◌then◌else◌, inl, inr, refl, sym, true, ℕ, ◌&&◌,
  ◌++◌, ◌+◌, ◌||◌, ◌∙◌, ◌∷◌, ◌≡◌,
}
use libieee.Conf.Words.{eq_of_text_eq, text_eq}
use libieee.Port.Machine.{Text}
use libieee.Ports.{Entry}
use libieee.Ports.Find.{deref_entry}
use libieee.Python.Find.{
  FoundPort, add_object, add_objects, dealloc, free_list, ref_entry, replace_item,
}

abbrev pub one_if : Bool → ℕ
one_if true = 1
one_if false = 0

-- The number of objects in the dictionary under a name.
pub objects : Text → List FoundPort → ℕ
objects name [] = 0
objects name (h ∷ held) = one_if (h.in_dict && text_eq h.port.name name) + objects name held

pub has_name : Text → List Entry → Bool
has_name name [] = false
has_name name (e ∷ list) = text_eq e.name name || has_name name list

item_count :
    (d a b c : Bool)
    → (a ≡ true → c ≡ b)
    → (b ≡ true → c ≡ a)
    → one_if ((if d && a then false else d) && c) ≡ (if b then 0 else one_if (d && c))
item_count true true b c f g = rw (f refl) (if_same b)
  where
    if_same : (b : Bool) → one_if false ≡ (if b then 0 else one_if b)
    if_same true = refl
    if_same false = refl
item_count true false true c f g = rw (g refl) refl
item_count true false false c f g = refl
item_count false a true c f g = refl
item_count false a false c f g = refl

deref_entry-name : (e : Entry) → (deref_entry e).name ≡ e.name
unfolding deref_entry
deref_entry-name e = ground arith

replaced-in_dict :
    (b : Bool) (h : FoundPort)
    → ((if b then dealloc h else h).in_dict ≡ (if b then false else h.in_dict))
      × ((if b then dealloc h else h).port.name ≡ h.port.name)
unfolding dealloc
replaced-in_dict true h = (refl, deref_entry-name h.port)
replaced-in_dict false h = (refl, refl)

objects-replace_item :
    (name new : Text) (held : List FoundPort)
    → objects name (replace_item new held) ≡ (if text_eq new name then 0 else objects name held)
unfolding objects replace_item
objects-replace_item name new [] = elim (Bool-cases (text_eq new name)) [
  | inl e ↦ rw e refl
  | inr e ↦ rw e refl
]
objects-replace_item name new (h ∷ held) =
    let (kept, named) = replaced-in_dict (h.in_dict && text_eq h.port.name new) h in
    let here =
      item_count h.in_dict (text_eq h.port.name new) (text_eq new name) (text_eq h.port.name name)
        (λ e. ap (λ t. text_eq t name) (eq_of_text_eq _ _ e))
        (λ e. ap (text_eq h.port.name) (sym (eq_of_text_eq _ _ e))) in
    rw (kept, named, here, objects-replace_item name new held) (sum_if _ _ _)
  where
    sum_if :
        (b : Bool) (m n : ℕ)
        → (if b then 0 else m) + (if b then 0 else n) ≡ (if b then 0 else m + n)
    sum_if true m n = refl
    sum_if false m n = refl

objects-append :
    (name : Text) (held : List FoundPort) (h : FoundPort)
    → objects name (held ++ h ∷ [])
      ≡ objects name held + one_if (h.in_dict && text_eq h.port.name name)
unfolding objects
objects-append name [] h = omega arith
objects-append name (x ∷ held) h = omega (arith, objects-append name held h)

objects-add_objects :
    (name : Text) (list : List Entry) (held : List FoundPort)
    → objects name (add_objects list held) ≡ (if has_name name list then 1 else objects name held)
unfolding add_objects add_object has_name ref_entry
objects-add_objects name [] held = refl
objects-add_objects name (e ∷ list) held =
    rw
      (
        objects-add_objects name list
            (replace_item e.name held ++ record { port = ref_entry e; in_dict = true } ∷ []),
        objects-append name (replace_item e.name held)
            (record { port = ref_entry e; in_dict = true }),
        objects-replace_item name e.name held,
      )
      (counted (has_name name list) (text_eq e.name name) _)
  where
    counted :
        (later here : Bool) (n : ℕ)
        → (if later then 1 else (if here then 0 else n) + one_if here)
          ≡ (if here || later then 1 else n)
    counted later here n = ground arith

objects-free_list :
    (name : Text) (held : List FoundPort) → objects name (free_list held) ≡ objects name held
unfolding objects free_list
objects-free_list name [] = refl
objects-free_list name (h ∷ held) = rw (deref_entry-name h.port, objects-free_list name held) refl

pub objects-found :
    (name : Text) (list : List Entry)
    → objects name (free_list (add_objects list [])) ≡ one_if (has_name name list)
unfolding objects
objects-found name list =
    objects-free_list name (add_objects list [])
    ∙ (objects-add_objects name list [] ∙ counted (has_name name list))
  where
    counted : (b : Bool) → (if b then 1 else 0) ≡ one_if b
    counted true = refl
    counted false = refl
