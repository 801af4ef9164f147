-- ===== src/Interface/References.antt =====
-- The reference count of a port. A port is held by the list that it was found for and by each
-- ieee1284_ref, and once more while it is open; deref_port frees it when nobody holds it any more.
use libieee.Port.Returns
use libieee.Common.{
  Bool, Option, ap, arith, false, is_one, ltb, not, pos, refl, suc, true, truthy, zero, ℕ, ℤ, ◌&&◌,
  ◌+◌, ◌∙◌, ◌≡◌,
}
use libieee.Interface.{deref_port, ieee1284_close, ieee1284_ref, ieee1284_unref}
use libieee.Port.Life.{Lifetime, LifetimeKept, lifetime}
use libieee.Port.Machine.{Machine, Port, Table}
use libieee.Port.Methods.{Methods}
use libieee.Port.Returns.{Returns, returns}
use libieee.Port.Run.{done}
use libieee.State.{ieee1284_open}
use libieee.State.Choice.{init_port-lifetime}

abbrev open_count : Bool → ℕ
open_count true = 1
open_count false = 0

-- With `held` references outside the library, the count is `held`, and one more on an open port;
-- the port is live as long as that is not zero.
pub record Counted {W : Type 0} (held : ℕ) (s : Machine W) : Type 0 where
  pub ref : s.port.ref ≡ pos (held + open_count s.port.opened)
  pub live : s.live ≡ ltb 0 (held + open_count s.port.opened)

module _ {W : Type 0} (methods : Table → Methods W) (capabilities : ℕ) (disallow_ppdev : Bool) where
  -- One call by a user who holds `held` references to a live port, and gives back no more.
  pub data Step : ℕ → Machine W → ℕ → Machine W → Type 0 where
    take_reference :
        {held : ℕ} {s t : Machine W} (r : ℤ)
        → s.live ≡ true
        → ieee1284_ref methods s ≡ done r t
        → Step held s (suc held) t
    drop_reference :
        {held : ℕ} {s t : Machine W} (r : ℤ)
        → s.live ≡ true
        → ieee1284_unref methods s ≡ done r t
        → Step (suc held) s held t
    open_port :
        {held : ℕ} {s t : Machine W} (flags : ℕ) (caps : Option ℕ) (r : ℤ × Option ℕ)
        → s.live ≡ true
        → ieee1284_open methods capabilities disallow_ppdev flags caps s ≡ done r t
        → Step held s held t
    close_port :
        {held : ℕ} {s t : Machine W} (r : ℤ)
        → s.live ≡ true
        → ieee1284_close methods s ≡ done r t
        → Step held s held t

  pub data Reach (start : ℕ) (s : Machine W) : ℕ → Machine W → Type 0 where
    no_calls : Reach start s start s
    and_call :
        {held held' : ℕ} {t u : Machine W}
        → Reach start s held t
        → Step held t held' u
        → Reach start s held' u

-- A call of deref_port on a port with count `n + 1`.
abbrev Dereferenced : {W : Type 0} → Machine W → ℕ → Machine W → Type 0
Dereferenced s n t = (t.port ≡ record (s.port) { ref = pos n }) × (t.live ≡ ltb 0 n)

Counted-of-lifetime :
    {W : Type 0} {held : ℕ} {s t : Machine W}
    → lifetime t ≡ lifetime s
    → Counted held s
    → Counted held t
Counted-of-lifetime {held} {s} {t} e c =
    let opened : t.port.opened ≡ s.port.opened = ap (λ (x : Lifetime). x.opened) e in
    record {
      ref = ap (λ (x : Lifetime). x.ref) e ∙ rw opened c.ref;
      live = ap (λ (x : Lifetime). x.live) e ∙ rw opened c.live;
    }

-- A reference given back on an open port is not the only one: the open has another.
not_last : (opened : Bool) (n : ℕ) → (opened && is_one (pos (suc n + open_count opened))) ≡ true → ⊥
not_last true n h = let e : suc n + 1 ≡ suc (suc n) = omega arith in ground (arith, e)
not_last false n h = cc

module _ {W : Type 0} (methods : Table → Methods W) where
  ref-Counted :
      (held : ℕ) (s : Machine W)
      → Counted held s
      → s.live ≡ true
      → Returns (λ _ t. Counted (suc held) t) (ieee1284_ref methods s)
  unfolding ieee1284_ref
  ref-Counted held s c l =
      returns (record { ref = rw c.ref (ap pos (omega arith)); live = l ∙ ground arith })

  deref_port_lem :
      (n : ℕ) (s : Machine W)
      → s.port.ref ≡ pos (suc n)
      → s.live ≡ true
      → Returns (λ _ t. Dereferenced s n t) (deref_port methods s)
  unfolding deref_port
  deref_port_lem zero s e l = rw e (returns (refl, refl))
  deref_port_lem (suc n) s e l =
      let more : true ≡ ltb 0 (suc n) = ground arith in rw e (returns (refl, l ∙ more))

  deref_port-Counted :
      (held : ℕ) (s : Machine W)
      → Counted (suc held) s
      → s.live ≡ true
      → Returns (λ _ t. Counted held t) (deref_port methods s)
  deref_port-Counted held s c l =
      Returns.mono
        (deref_port_lem (held + open_count s.port.opened) s (c.ref ∙ ap pos (omega arith)) l)
        λ _ t d.
          let opened : t.port.opened ≡ s.port.opened = ap (λ (p : Port). p.opened) d.0 in
          record {
            ref = ap (λ (p : Port). p.ref) d.0 ∙ rw opened refl;
            live = d.1 ∙ rw opened refl;
          }

  -- A user who gives back one of the references held does not close the port on the way.
  unref-Counted :
      (held : ℕ) (s : Machine W)
      → Counted (suc held) s
      → s.live ≡ true
      → Returns (λ _ t. Counted held t) (ieee1284_unref methods s)
  unfolding ieee1284_unref
  unref-Counted held s c l =
      Returns.branch (s.port.opened && is_one s.port.ref) _ _ s
        (λ last. absurd (not_last s.port.opened held (rw c.ref at last)))
        λ _. deref_port-Counted held s c l

module _ {W : Type 0} {methods : Table → Methods W} {capabilities : ℕ}
    (kept : LifetimeKept methods capabilities) where
  close-Counted :
      (held : ℕ) (s : Machine W)
      → Counted held s
      → s.live ≡ true
      → Returns (λ _ t. Counted held t) (ieee1284_close methods s)
  unfolding ieee1284_close
  close-Counted held s c l =
      Returns.branch (not s.port.opened) _ _ s (λ _. returns c)
        λ was_open. Returns.bind (kept.cleanup s.port.fn s) λ _ t e.
          let opened : t.port.opened ≡ true = ap (λ (x : Lifetime). x.opened) e ∙ ground arith in
          let d : Counted held t = Counted-of-lifetime e c in
          Returns.bind
            (deref_port_lem methods held (record t { port = record (t.port) { opened = false } })
              (d.ref ∙ rw opened (ap pos (omega arith))) (ap (λ (x : Lifetime). x.live) e ∙ l))
            λ _ u f.
              let shut : u.port.opened ≡ false = ap (λ (p : Port). p.opened) f.0 in
              returns (record {
                ref = ap (λ (p : Port). p.ref) f.0 ∙ rw shut (ap pos (omega arith));
                live = f.1 ∙ rw shut (ap (ltb 0) (omega arith));
              })

  open-Counted :
      (disallow_ppdev : Bool) (flags : ℕ) (caps : Option ℕ) (held : ℕ) (s : Machine W)
      → Counted held s
      → s.live ≡ true
      → Returns
          (λ _ t. Counted held t)
          (ieee1284_open methods capabilities disallow_ppdev flags caps s)
  unfolding ieee1284_open
  open-Counted disallow_ppdev flags caps held s c l =
      Returns.branch s.port.opened _ _ s (λ _. returns c)
        λ shut. Returns.bind (init_port-lifetime kept disallow_ppdev flags _ s) λ r t e.
          let d : Counted held t = Counted-of-lifetime e c in
          Returns.branch (truthy r.0) _ _ t (λ _. returns d)
            λ _.
              let was_shut : t.port.opened ≡ false = ap (λ (x : Lifetime). x.opened) e ∙ shut in
              let live : t.live ≡ true = ap (λ (x : Lifetime). x.live) e ∙ l in
              returns (record {
                ref = rw d.ref (rw was_shut (ap pos (omega arith)));
                live = live ∙ ground arith;
              })

  Step-Counted :
      {disallow_ppdev : Bool} {held held' : ℕ} {s t : Machine W}
      → Step methods capabilities disallow_ppdev held s held' t
      → Counted held s
      → Counted held' t
  Step-Counted (take_reference r l e) c = Returns.known _ (ref-Counted methods _ _ c l) e
  Step-Counted (drop_reference r l e) c = Returns.known _ (unref-Counted methods _ _ c l) e
  Step-Counted (open_port flags caps r l e) c =
      Returns.known _ (open-Counted _ flags caps _ _ c l) e
  Step-Counted (close_port r l e) c = Returns.known _ (close-Counted _ _ c l) e

  -- Through any calls of open, close, ref and unref by users who give back no more references than
  -- they hold, on a port that is live when they make them, the count is the references held and
  -- one for an open port, and the port is freed when that sum is zero and not before; if the count
  -- is right at first, and init and cleanup of the tables return and leave the count alone.
  pub Reach-Counted :
      {disallow_ppdev : Bool} {held : ℕ} {s : Machine W} {held' : ℕ} {t : Machine W}
      → Counted held s
      → Reach methods capabilities disallow_ppdev held s held' t
      → Counted held' t
  Reach-Counted c no_calls = c
  Reach-Counted c (and_call r st) = Step-Counted st (Reach-Counted c r)
