-- ===== src/Ports/Added.antt =====
-- What the list of src/ports.c keeps while ports are added to it.
use mathlib.Core.Bool.{Bool-set}
use mathlib.Core.List.Perm
use mathlib.Core.List.{Mem, Perm, eq-or-mem_of_mem-cons, perm_append_singleton}
use mathlib.Core.Logic.Or
use libieee.Port.E1284
use libieee.Common.{
  Bool, Bool-cases, List, Option, [], arith, false, inl, inr, is_one, length, length-append, not,
  pos, refl, true, ℕ, ℤ, ◌&&◌, ◌++◌, ◌+◌, ◌-◌, ◌<◌, ◌==◌, ◌∷◌, ◌≡◌, ◌⊎◌,
}
use libieee.Port.Machine.{Table, Text}
use libieee.Ports.{Entry, Ordered, Sorts, add_port, max_ports, new_port}

abbrev is_zeroed : Table → Bool
is_zeroed Table.zeroed = true
is_zeroed _ = false

-- A port that has been found and not used: live, held by the list alone, not open and not claimed.
abbrev pub is_fresh : Entry → Bool
is_fresh e =
    e.live && is_one e.priv.ref && not e.priv.opened && not e.priv.claimed && is_zeroed e.priv.fn

-- A list that add_port may be called on: it leaves one place of the array free, its names are in
-- order, and its ports have not been used.
pub record WellFormed (strcmp : Text → Text → ℤ) (list : List Entry) : Type 0 where
  pub room : length list < max_ports
  pub ordered : Ordered strcmp list
  pub fresh : (e : Entry) → Mem e list → is_fresh e ≡ true

module _ {strcmp : Text → Text → ℤ} {qsort : List Entry → List Entry}
    (sorts : Sorts strcmp qsort) where
  new_port-fresh :
      (name device : Text) (udevice : Option Text) (base hibase : ℕ) (interrupt : ℤ)
      → is_fresh (new_port name device udevice base hibase interrupt) ≡ true
  unfolding new_port
  new_port-fresh name device udevice base hibase interrupt = refl

  all-fresh :
      (p : Entry) (list : List Entry)
      → is_fresh p ≡ true
      → ((e : Entry) → Mem e list → is_fresh e ≡ true)
      → (e : Entry) → Mem e (qsort (list ++ p ∷ []))
      → is_fresh e ≡ true
  all-fresh p list good fresh e m =
      let same : Perm (qsort (list ++ p ∷ [])) (p ∷ list) =
        Perm.trans (sorts.perm (list ++ p ∷ [])) (perm_append_singleton p list) in
      Or.elim (Bool-set (is_fresh e) true) (eq-or-mem_of_mem-cons ((Perm.mem_iff same).0 m))
        (λ here. rw here good) (λ there. fresh e there)

  -- A port is added to the list, with every port that was there, or the list is full and stays as it
  -- is, which is reported; and either way the list keeps its free place, its order and its unused
  -- ports. The system's qsort sorts.
  pub add_port-WellFormed :
      (name device : Text) (udevice : Option Text) (base hibase : ℕ) (interrupt : ℤ)
      (list : List Entry)
      → WellFormed strcmp list
      → (let r = add_port qsort name device udevice base hibase interrupt list in
          WellFormed strcmp r.1
          × (((r.0 ≡ pos 0) × Perm r.1 (new_port name device udevice base hibase interrupt ∷ list))
              ⊎ ((r.0 ≡ E1284.nomem) × (r.1 ≡ list) × (length list + 1 ≡ max_ports))))
  unfolding add_port
  add_port-WellFormed name device udevice base hibase interrupt list w =
      let p = new_port name device udevice base hibase interrupt in
      elim (Bool-cases (length list == max_ports - 1)) [
        | inl full ↦ rw full (w, inr (refl, refl, ground (arith, full)))
        | inr room ↦ rw room (
          record {
            room =
                let places : length list + 1 < max_ports = ground (arith, room, w.room) in
                omega
                  (arith, places, w.room, sorts.size (list ++ p ∷ []), length-append list (p ∷ []));
            ordered = sorts.ordered (list ++ p ∷ []);
            fresh =
                all-fresh p list (new_port-fresh name device udevice base hibase interrupt) w.fresh;
          },
          inl (refl, Perm.trans (sorts.perm (list ++ p ∷ [])) (perm_append_singleton p list)),
        )
      ]
