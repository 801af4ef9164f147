-- ===== src/DeviceId/Fetched.antt =====
-- What get_fresh of src/deviceid.c leaves of the buffer and of the port.
use libieee.Port.E1284
use libieee.Port.Returns
use libieee.Common.{List, arith, is_neg, length, not, truthy, ℕ, ℤ, ◌<◌, ◌∙◌, ◌≡◌, ◌≤◌}
use libieee.DeviceId.{Filled, get_fresh, read_text, under_two}
use libieee.DeviceId.Buffer.{
  add_int, byte_at, idlen, idlen-fits, length-store_at, length-terminated, size_range, store_at,
}
use libieee.Interface.{ieee1284_negotiate, ieee1284_terminate}
use libieee.Interface.Transfers.{ieee1284_nibble_read}
use libieee.Port.Life.{Held, Held-trans, Usable, lifetime, unchanged}
use libieee.Port.Machine.{Machine, Table}
use libieee.Port.Methods.{Methods}
use libieee.Port.Returns.{Returns, returns}
use libieee.Port.Run.{if_present, or_else}
use libieee.State.Choice.{InitHeld}

-- The methods of the tables that an open may copy on a system with these capabilities return and
-- leave the port to its user, and its reads store no more than is asked.
pub record Working {W : Type 0} (methods : Table → Methods W) (capabilities : ℕ) : Type 0 where
  pub init : InitHeld methods capabilities
  pub cleanup :
      (table : Table) (s : Machine W)
      → Returns (λ _ t. lifetime t ≡ lifetime s) (if_present (methods table).cleanup s)
  pub claim :
      (table : Table) (s : Machine W)
      → Usable capabilities table
      → Usable capabilities s.port.fn
      → Returns (λ _ t. Held capabilities s t) (or_else E1284.ok (methods table).claim s)
  pub release :
      (table : Table) (s : Machine W)
      → Usable capabilities table
      → Usable capabilities s.port.fn
      → Returns (λ _ t. Held capabilities s t) (if_present (methods table).release s)
  pub terminate :
      (table : Table) (s : Machine W)
      → Usable capabilities table
      → Usable capabilities s.port.fn
      → Returns (λ _ t. Held capabilities s t) ((methods table).terminate s)
  pub negotiate :
      (table : Table) (s : Machine W) (mode : ℕ)
      → Usable capabilities table
      → Usable capabilities s.port.fn
      → Returns (λ _ t. Held capabilities s t) ((methods table).negotiate mode s)
  pub nibble_read :
      (table : Table) (s : Machine W) (flags len : ℕ)
      → Usable capabilities table
      → Usable capabilities s.port.fn
      → Returns
          (λ r t. Held capabilities s t × (length r.1 ≤ len))
          ((methods table).nibble_read flags len s)

module _ {W : Type 0} (methods : Table → Methods W) (capabilities : ℕ)
    (works : Working methods capabilities) where
  terminate-Held :
      (s : Machine W)
      → Usable capabilities s.port.fn
      → Returns (λ _ t. Held capabilities s t) (ieee1284_terminate methods s)
  unfolding ieee1284_terminate
  terminate-Held s filled =
      Returns.branch s.port.claimed _ _ s (λ _. works.terminate s.port.fn s filled filled)
        λ _. returns (unchanged s filled)

  negotiate-Held :
      (s : Machine W) (mode : ℕ)
      → Usable capabilities s.port.fn
      → Returns (λ _ t. Held capabilities s t) (ieee1284_negotiate methods mode s)
  unfolding ieee1284_negotiate
  negotiate-Held s mode filled =
      Returns.branch s.port.claimed _ _ s (λ _. works.negotiate s.port.fn s mode filled filled)
        λ _. returns (unchanged s filled)

  nibble_read-Held :
      (s : Machine W) (flags len : ℕ)
      → Usable capabilities s.port.fn
      → Returns
          (λ r t. Held capabilities s t × (length r.1 ≤ len))
          (ieee1284_nibble_read methods flags len s)
  unfolding ieee1284_nibble_read
  nibble_read-Held s flags len filled =
      Returns.branch s.port.claimed _ _ s
        (λ _. works.nibble_read s.port.fn s flags len filled filled)
        λ _. returns (unchanged s filled, omega arith)

  module _ (len : ℕ) (room : 2 ≤ len) (in_range : len < size_range) where
    -- A function that fills the buffer and leaves the port to its user.
    abbrev pub Fills : Machine W → Filled → Machine W → Type 0
    Fills s r t = Held capabilities s t × (length r.1 ≡ len)

    read_text-Fills :
        (got : ℤ) (buffer : List ℕ) (s : Machine W)
        → Usable capabilities s.port.fn
        → length buffer ≡ len
        → Returns (Fills s) (read_text methods got len buffer s)
    unfolding read_text
    read_text-Fills got buffer s filled h =
        let asked = idlen len (byte_at 0 buffer) (byte_at 1 buffer) in
        let fits = idlen-fits len (byte_at 0 buffer) (byte_at 1 buffer) room in_range in
        Returns.bind (nibble_read-Held s 0 asked filled) λ (more, bytes) t e.
          Returns.bind (terminate-Held t e.0.filled) λ _ u f.
            let stored : length (store_at 2 bytes buffer) ≡ len =
              length-store_at 2 bytes buffer (omega (arith, e.1)) ∙ h in
            returns (Held-trans e.0 f, length-terminated (add_int got more) len _ stored)

    pub get_fresh-Fills :
        (daisy : ℤ) (buffer : List ℕ) (s : Machine W)
        → Usable capabilities s.port.fn
        → length buffer ≡ len
        → Returns (Fills s) (get_fresh methods daisy len buffer s)
    unfolding get_fresh
    get_fresh-Fills daisy buffer s filled h =
        Returns.branch (not (is_neg daisy)) _ _ s (λ _. returns (unchanged s filled, h))
          λ _. Returns.bind (terminate-Held s filled) λ _ t e.
            Returns.bind (negotiate-Held t _ e.filled) λ r u f.
              Returns.branch (truthy r) _ _ u (λ _. returns (Held-trans e f, h))
                λ _. Returns.bind (nibble_read-Held u 0 2 f.filled) λ (got, bytes) v g.
                  let held = Held-trans e (Held-trans f g.0) in
                  let stored : length (store_at 0 bytes buffer) ≡ len =
                    length-store_at 0 bytes buffer (omega (arith, g.1)) ∙ h in
                  Returns.branch (under_two got) _ _ v (λ _. returns (held, stored))
                    λ _.
                      Returns.mono (read_text-Fills got _ v g.0.filled stored)
                        λ _ w i. (Held-trans held i.0, i.1)
