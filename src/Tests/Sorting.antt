-- ===== src/Tests/Sorting.antt =====
-- An insertion sort by name, for the list of ports, and the theorem about a port added to a list.
use mathlib.Core.List.Perm
use mathlib.Core.List.{Perm, not-mem-nil}
use libieee.Port.E1284
use libieee.Common.{
  Bool, Bool-cases, List, [], ap, arith, false, if◌then◌else◌, inl, inr, is_neg, length, ltb,
  negsuc, none, pos, refl, suc, true, ℤ, ◌+◌, ◌∙◌, ◌∷◌, ◌≡◌, ◌⊎◌,
}
use libieee.Port.Machine.{Text}
use libieee.Ports.{Entry, Ordered, Sorts, add_port, max_ports, new_port}
use libieee.Ports.Added.{WellFormed, add_port-WellFormed}

abbrev pub strcmp : Text → Text → ℤ
strcmp [] [] = pos 0
strcmp [] (b ∷ ys) = negsuc 0
strcmp (a ∷ xs) [] = pos 1
strcmp (a ∷ xs) (b ∷ ys) = if ltb a b then negsuc 0 else if ltb b a then pos 1 else strcmp xs ys

strcmp-asym : (s t : Text) → is_neg (strcmp s t) ≡ true → is_neg (strcmp t s) ≡ false
strcmp-asym [] [] h = refl
strcmp-asym [] (b ∷ ys) h = refl
strcmp-asym (a ∷ xs) [] h = absurd (cc)
strcmp-asym (a ∷ xs) (b ∷ ys) h = elim (Bool-cases (ltb a b)) [
  | inl less ↦ let not_more : ltb b a ≡ false = ground arith in rw not_more (rw less refl)
  | inr not_less ↦ elim (Bool-cases (ltb b a)) [
    | inl more ↦ absurd (impossible (rw not_less (rw more refl)) h)
    | inr not_more ↦ rw not_more (rw not_less (strcmp-asym xs ys (rw (not_less, not_more) at h)))
  ]
]
  where
    impossible : {b : Bool} → b ≡ false → b ≡ true → ⊥
    impossible e f = cc

abbrev insert_port : Entry → List Entry → List Entry
insert_port p [] = p ∷ []
insert_port p (e ∷ rest) =
    if is_neg (strcmp e.name p.name) then e ∷ insert_port p rest else p ∷ e ∷ rest

abbrev pub insertion_sort : List Entry → List Entry
insertion_sort [] = []
insertion_sort (e ∷ rest) = insert_port e (insertion_sort rest)

insert_port-Perm : (p : Entry) (list : List Entry) → Perm (insert_port p list) (p ∷ list)
insert_port-Perm p [] = Perm.refl (p ∷ [])
insert_port-Perm p (e ∷ rest) = elim (Bool-cases (is_neg (strcmp e.name p.name))) [
  | inl later ↦ rw later (Perm.trans (Perm.cons e (insert_port-Perm p rest)) (Perm.swap p e rest))
  | inr here ↦ rw here (Perm.refl (p ∷ e ∷ rest))
]

insertion_sort-Perm : (list : List Entry) → Perm (insertion_sort list) list
insertion_sort-Perm [] = Perm.refl []
insertion_sort-Perm (e ∷ rest) =
    Perm.trans (insert_port-Perm e (insertion_sort rest)) (Perm.cons e (insertion_sort-Perm rest))

length-insert_port :
    (p : Entry) (list : List Entry) → length (insert_port p list) ≡ suc (length list)
length-insert_port p [] = refl
length-insert_port p (e ∷ rest) = elim (Bool-cases (is_neg (strcmp e.name p.name))) [
  | inl later ↦ rw later (ap suc (length-insert_port p rest))
  | inr here ↦ rw here refl
]

length-insertion_sort : (list : List Entry) → length (insertion_sort list) ≡ length list
length-insertion_sort [] = refl
length-insertion_sort (e ∷ rest) =
    length-insert_port e (insertion_sort rest) ∙ ap suc (length-insertion_sort rest)

-- An entry before a list in order, where the insertion puts another one into the list.
insert_port-Ordered :
    (p : Entry) (list : List Entry) → Ordered strcmp list → Ordered strcmp (insert_port p list)
insert_port-Ordered p [] h = tt
insert_port-Ordered p (e ∷ []) h = elim (Bool-cases (is_neg (strcmp e.name p.name))) [
  | inl later ↦ rw later (strcmp-asym e.name p.name later, tt)
  | inr here ↦ rw here (here, tt)
]
insert_port-Ordered p (e ∷ f ∷ rest) h = elim (Bool-cases (is_neg (strcmp e.name p.name))) [
  | inl later ↦ elim (Bool-cases (is_neg (strcmp f.name p.name))) [
    | inl after ↦
        let tail : Ordered strcmp (f ∷ insert_port p rest) =
          rw after at (insert_port-Ordered p (f ∷ rest) h.1) in
        rw (later, after) (h.0, tail)
    | inr here ↦ rw (later, here) (strcmp-asym e.name p.name later, (here, h.1))
  ]
  | inr here ↦ rw here (here, h)
]

insertion_sort-Ordered : (list : List Entry) → Ordered strcmp (insertion_sort list)
insertion_sort-Ordered [] = tt
insertion_sort-Ordered (e ∷ rest) =
    insert_port-Ordered e (insertion_sort rest) (insertion_sort-Ordered rest)

pub insertion_sort-Sorts : Sorts strcmp insertion_sort
insertion_sort-Sorts = record {
  ordered = insertion_sort-Ordered;
  perm = insertion_sort-Perm;
  size = length-insertion_sort;
}

empty-WellFormed : WellFormed strcmp []
empty-WellFormed = record {
  room = omega arith;
  ordered = tt;
  fresh = λ e m. absurd (not-mem-nil m);
}

abbrev a_name : Text
a_name = b'0' ∷ b'x' ∷ b'3' ∷ b'7' ∷ b'8' ∷ []

add_port-WellFormed_example :
    (let r = add_port insertion_sort a_name a_name none 0x378 0 (negsuc 0) [] in
      WellFormed strcmp r.1
      × (((r.0 ≡ pos 0) × Perm r.1 (new_port a_name a_name none 0x378 0 (negsuc 0) ∷ []))
          ⊎ ((r.0 ≡ E1284.nomem) × (r.1 ≡ []) × (length {A = Entry} [] + 1 ≡ max_ports))))
add_port-WellFormed_example =
    add_port-WellFormed insertion_sort-Sorts a_name a_name none 0x378 0 (negsuc 0) []
      empty-WellFormed
