-- ===== src/System/Opens.antt =====
-- ieee1284_open with what detect_environment has found, and the library's own tables.
use libieee.Port.Capable
use libieee.Port.Returns
use libieee.Common.{
  Bool, Option, arith, false, incr, inl, inr, meets, refl, true, truthy, ℕ, ℤ, ◌&&◌, ◌==◌, ◌≡◌, ◌⊎◌,
}
use libieee.Detect.{detect_environment}
use libieee.Detect.Calls.{Known, System}
use libieee.Detect.Forbidden.{Permitted, detect_environment-Permitted}
use libieee.Lpt.{null_lpt_access_methods}
use libieee.Port.Host.{Host}
use libieee.Port.Life.{LifetimeKept}
use libieee.Port.Machine.{Machine}
use libieee.Port.Returns.{Returns, known, returns}
use libieee.State.{ieee1284_open}
use libieee.State.Allowed.{Allowed, InitTyped, by_dev_port, by_io, by_lpt, by_ppdev, open-Allowed}
use libieee.System.{linux_methods}
use libieee.Tables.Lifetime.{access_methods-InitTyped, access_methods-LifetimeKept}

module _ {W : Type 0} (host : Host W) (rounds : ℕ) (capabilities : ℕ)
    (no_lpt : meets capabilities Capable.lpt ≡ false) where
  linux_methods-InitTyped : InitTyped (linux_methods host rounds) capabilities
  linux_methods-InitTyped =
      access_methods-InitTyped host rounds null_lpt_access_methods capabilities (λ lpt. absurd (cc))

  pub linux_methods-LifetimeKept : LifetimeKept (linux_methods host rounds) capabilities
  linux_methods-LifetimeKept =
      access_methods-LifetimeKept host rounds null_lpt_access_methods capabilities
        (λ lpt. absurd (cc)) (λ s. returns refl)

-- The access method that an open has left is none of those that were forbidden.
not_forbidden : (forbids found : Bool) → (forbids && found) ≡ false → found ≡ true → forbids ≡ false
not_forbidden forbids found h e = ground arith

Allowed-Permitted :
    {forbidden capabilities type : ℕ} {disallow_ppdev : Bool}
    → Permitted forbidden capabilities
    → Allowed capabilities disallow_ppdev type
    → meets forbidden type ≡ false
Allowed-Permitted p (by_ppdev _ found) = not_forbidden _ _ p.ppdev found
Allowed-Permitted p (by_io found) = not_forbidden _ _ p.io found
Allowed-Permitted p (by_dev_port found) = not_forbidden _ _ p.dev_port found
Allowed-Permitted p (by_lpt found) = absurd (cc (p.lpt, found))

module _ {W : Type 0} (system : System W) (rounds : ℕ) (forbidden : ℕ) (k : Known W)
    (disallow_ppdev : Bool) (flags : ℕ) (caps : Option ℕ) where
  abbrev found : ℕ
  found = (detect_environment system forbidden k).1.capabilities

  -- What an open leaves, with the capabilities that were found.
  abbrev pub Opens : Machine W → ℤ × Option ℕ → Machine W → Type 0
  Opens s r t =
      ((truthy r.0 ≡ false)
        × (t.port.opened ≡ true)
        × (t.port.ref ≡ incr s.port.ref)
        × (meets forbidden t.port.type ≡ false)
        × Allowed found disallow_ppdev t.port.type)
      ⊎ ((truthy r.0 ≡ true) × (t.port.opened ≡ false) × (t.port.ref ≡ s.port.ref))

  opens :
      Permitted forbidden found
      → (s : Machine W) → s.port.opened ≡ false
      → Returns
          (Opens s)
          (ieee1284_open (linux_methods system.host rounds) found disallow_ppdev flags caps s)
  opens p s closed =
      Returns.mono
        (open-Allowed (linux_methods system.host rounds) found
          (linux_methods-InitTyped system.host rounds found p.lpt) disallow_ppdev
          (linux_methods-LifetimeKept system.host rounds found p.lpt) flags caps s closed)
        λ r t e. elim e [
          | inl (fine, is_open, count, a) ↦ inl (fine, is_open, count, Allowed-Permitted p a, a)
          | inr failed ↦ inr failed
        ]

  -- A system is looked at, and a port that is not open is opened with the library's own tables.
  -- Then the open returns, whatever the system answers. If it succeeds, the port is open with one
  -- reference more, by an access method that has been found and is not forbidden, and by ppdev only
  -- where the configuration does not disallow it; if not, the port is not open and its count is as
  -- it was.
  pub open-Found :
      (s : Machine W)
      → (k.detected && forbidden == 0) ≡ false
      → s.port.opened ≡ false
      → Returns (Opens s) (
          ieee1284_open
            (linux_methods system.host rounds)
            ((detect_environment system forbidden k).1.capabilities)
            disallow_ppdev
            flags
            caps
            s)
  open-Found s looks closed = elim (detect_environment-Permitted system forbidden k) [
    | inl (_, p) ↦ opens p s closed
    | inr (known, _) ↦ absurd (cc (looks, known))
  ]
