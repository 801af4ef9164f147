-- ===== src/DeviceId/Kept.antt =====
-- What ieee1284_get_deviceid of src/deviceid.c leaves of the buffer and of the port.
use libieee.Port.Returns
use libieee.Port.Transfer
use libieee.Common.{
  Bool, List, Option, ap, arith, false, incr, inl, inr, is_neg, length, meets, none, not, pos, refl,
  suc, true, truthy, ℕ, ℤ, ◌<◌, ◌∙◌, ◌≡◌, ◌≤◌, ◌⊎◌,
}
use libieee.DeviceId.{Filled, Reader, from_device, ieee1284_get_deviceid, is_no_device_id}
use libieee.DeviceId.Buffer.{size_range}
use libieee.DeviceId.Fetched.{Working, get_fresh-Fills}
use libieee.DeviceId.Files.{Reads, from_files-ReadsInto}
use libieee.Interface.{deref_port, ieee1284_claim, ieee1284_close, ieee1284_release}
use libieee.Port.Life.{Held, Lifetime, Usable, lifetime, unchanged}
use libieee.Port.Machine.{Machine, Table, Text}
use libieee.Port.Methods.{Methods}
use libieee.Port.Returns.{Returns, returns}
use libieee.Ppdev.Modes.{has_others}
use libieee.State.{ieee1284_open}
use libieee.State.Choice.{init_port-Chosen}

module _ {W : Type 0} (methods : Table → Methods W) (capabilities : ℕ)
    (works : Working methods capabilities) where
  -- A port of this life is open, with one more reference.
  abbrev Opened : Machine W → Machine W → Type 0
  Opened s t = lifetime t ≡ record (lifetime s) { opened = true; ref = incr s.port.ref }

  open-Opened :
      (disallow_ppdev : Bool) (flags : ℕ) (caps : Option ℕ) (s : Machine W)
      → s.port.opened ≡ false
      → Returns
          (λ r t.
            ((truthy r.0 ≡ true) × (lifetime t ≡ lifetime s))
            ⊎ ((truthy r.0 ≡ false) × Opened s t × Usable capabilities t.port.fn))
          (ieee1284_open methods capabilities disallow_ppdev flags caps s)
  unfolding ieee1284_open
  open-Opened disallow_ppdev flags caps s closed =
      Returns.branch s.port.opened _ _ s (λ open_already. absurd (cc))
        λ _.
          Returns.bind (init_port-Chosen methods capabilities works.init disallow_ppdev flags _ s)
            λ (ret, caps) t e.
              Returns.branch (truthy ret) _ _ t (λ failed. returns (inl (failed, e.life)))
                λ fine. returns (
                  inr (
                    refl,
                    ap (λ (l : Lifetime). record l { opened = true; ref = incr l.ref }) e.life,
                    e.filled fine,
                  ))

  claim-Held :
      (s : Machine W)
      → Usable capabilities s.port.fn
      → Returns (λ _ t. Held capabilities s t) (ieee1284_claim methods s)
  unfolding ieee1284_claim
  claim-Held s filled =
      Returns.branch (not s.port.opened) _ _ s (λ _. returns (unchanged s filled))
        λ _.
          Returns.branch s.port.claimed _ _ s (λ _. returns (unchanged s filled))
            λ _. Returns.bind (works.claim s.port.fn s filled filled) λ ret t e.
              Returns.branch' (truthy ret) _ _ t _ (λ _. returns e)
                λ _. returns (record { life = e.life; filled = e.filled })

  release-Held :
      (s : Machine W)
      → Usable capabilities s.port.fn
      → Returns (λ _ t. Held capabilities s t) (ieee1284_release methods s)
  unfolding ieee1284_release
  release-Held s filled =
      Returns.branch' s.port.claimed _ _ s _
        (λ _.
          Returns.bind (works.release s.port.fn s filled filled)
            λ _ t e. returns (record { life = e.life; filled = e.filled }))
        λ _. returns (record { life = refl; filled = filled })

  -- A close of an open port that somebody else has a reference to.
  close-Shut :
      (s t : Machine W) (n : ℕ)
      → Opened s t
      → s.port.ref ≡ pos (suc n)
      → s.port.opened ≡ false
      → Returns (λ _ u. lifetime u ≡ lifetime s) (ieee1284_close methods t)
  unfolding ieee1284_close deref_port
  close-Shut s t n e some_left closed =
      let is_open : t.port.opened ≡ true = ap (λ (l : Lifetime). l.opened) e in
      Returns.branch (not t.port.opened) _ _ t (λ not_open. absurd (ground arith))
        λ _. Returns.bind (works.cleanup t.port.fn t) λ _ u f.
          let refs : u.port.ref ≡ pos (suc (suc n)) =
            ap (λ (l : Lifetime). l.ref) (f ∙ e) ∙ rw some_left refl in
          let live : u.live ≡ s.live = ap (λ (l : Lifetime). l.live) (f ∙ e) in
          rw refs (returns (rw (closed, some_left, live) refl))

  module _ (len : ℕ) (room : 3 ≤ len) (in_range : len < size_range) (s : Machine W) (n : ℕ)
      (closed : s.port.opened ≡ false) (used : s.port.ref ≡ pos (suc n)) where
    -- The buffer keeps its length, and the port is as it was, or is left open by an error.
    pub record Ended (r : Filled) (t : Machine W) : Type 0 where
      pub buffer : length r.1 ≡ len
      pub session : (lifetime t ≡ lifetime s) ⊎ (Opened s t × (truthy r.0 ≡ true))

    from_device-Ended :
        (disallow_ppdev : Bool) (daisy : ℤ) (buffer : List ℕ) (t : Machine W)
        → lifetime t ≡ lifetime s
        → length buffer ≡ len
        → Returns Ended (from_device methods capabilities disallow_ppdev daisy len buffer t)
    unfolding from_device
    from_device-Ended disallow_ppdev daisy buffer t same h =
        let shut : t.port.opened ≡ false = ap (λ (l : Lifetime). l.opened) same ∙ closed in
        Returns.bind (open-Opened disallow_ppdev 0 none t shut) λ (ret, caps) u e. elim e [
          | inl (failed, life) ↦
              rw failed (returns (record { buffer = h; session = inl (life ∙ same) }))
          | inr (fine, more, filled) ↦
              let opened : Opened s u =
                more ∙ ap (λ (l : Lifetime). record l { opened = true; ref = incr l.ref }) same in
              rw fine (
                Returns.bind (claim-Held u filled) λ ret v g.
                  Returns.branch (truthy ret) _ _ v
                    (λ failed.
                      returns (record { buffer = h; session = inr (g.life ∙ opened, failed) }))
                    λ _.
                      Returns.bind
                        (get_fresh-Fills methods capabilities works len (omega arith) in_range daisy
                          buffer v g.filled h)
                        λ r w i. Returns.bind (release-Held w i.0.filled) λ _ x j.
                          Returns.bind
                            (close-Shut s x n (j.life ∙ (i.0.life ∙ (g.life ∙ opened))) used closed)
                            λ _ y k. returns (record { buffer = i.1; session = inl k }))
        ]

    -- The Device ID is asked for on a port that is not open, and somebody holds a reference to it,
    -- with a buffer of three bytes at least. Then the call returns on every path, nothing is stored
    -- outside the buffer, whatever length the device claims, and the port is not open and its count
    -- is as it was, unless an error is returned: then it may be left open with one reference more.
    -- The methods of the tables that can be found with these capabilities return and leave the count
    -- alone, and store no more than is asked for; so does the read of the system.
    pub get_deviceid-Ended :
        (reader : Reader W)
        → Reads reader
        → (disallow_ppdev : Bool) (name : Text) (daisy : ℤ) (flags : ℕ) (buffer : List ℕ)
        → length buffer ≡ len
        → Returns Ended (
            ieee1284_get_deviceid methods reader capabilities disallow_ppdev name daisy flags len
              buffer s)
    unfolding ieee1284_get_deviceid
    get_deviceid-Ended reader reads disallow_ppdev name daisy flags buffer h =
        Returns.branch (has_others flags Transfer.fresh) _ _ s
          (λ _. returns (record { buffer = h; session = inl refl }))
          λ _.
            Returns.branch (meets flags Transfer.fresh) _ _ s
              (λ _. from_device-Ended disallow_ppdev daisy buffer s refl h)
              λ _.
                Returns.bind
                  (from_files-ReadsInto reader reads len room in_range buffer h methods capabilities
                    name daisy s)
                  λ (ret, filled) t e.
                    Returns.branch (not (is_neg ret)) _ _ t
                      (λ _. returns (record { buffer = e.1; session = inl e.0 }))
                      λ _.
                        Returns.branch (is_no_device_id ret) _ _ t
                          (λ _. returns (record { buffer = e.1; session = inl e.0 }))
                          λ _. from_device-Ended disallow_ppdev daisy filled t e.0 e.1
