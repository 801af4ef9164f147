-- ===== src/System/Files.antt =====
-- An open and a close of a port leave no file open.
use mathlib.Core.Path.{subst}
use libieee.Port.Capable
use libieee.Port.Returns
use libieee.Common.{
  Bool, List, Option, ap, decr, false, incr, inl, inr, meets, not, refl, sym, true, truthy, ℕ, ℤ,
  ◌∙◌, ◌≡◌, ◌⊎◌,
}
use libieee.Interface.{deref_port, ieee1284_close}
use libieee.Io.Files.{dev_port_cleanup-files, io_cleanup-files, io_init-Tried}
use libieee.Port.Descriptors.{HasFile, HostFiles, Tried, dev_port_open, device_open, no_file_open}
use libieee.Port.Host.{Host}
use libieee.Port.Life.{Lifetime}
use libieee.Port.Machine.{Machine, Table}
use libieee.Port.Returns.{Returns, returns}
use libieee.Port.Run.{Outcome, if_present, ◌>>◌}
use libieee.Ppdev.Opening.Files.{ppdev_cleanup-files, ppdev_init-Tried}
use libieee.State.{ieee1284_open}
use libieee.State.Choice.{init_port-lifetime}
use libieee.State.Files.{init_port-Tried}
use libieee.System.{linux_methods}
use libieee.System.Opens.{linux_methods-LifetimeKept}

from_here :
    {W A : Type 0} (P : List ℤ → A → Machine W → Type 0) (r : Outcome W A) {u others : List ℤ}
    → u ≡ others
    → Returns (P u) r
    → Returns (P others) r
from_here P r e h = subst (λ o. Returns (P o) r) e h

module _ {W : Type 0} (host : Host W) (rounds : ℕ) {files : W → List ℤ}
    (laws : HostFiles host files) where
  abbrev Cleans : List ℤ → Machine W → Table → Type 0
  Cleans others s table =
      Returns (λ _ t. files t.world ≡ others)
        (if_present (linux_methods host rounds table).cleanup s)

  -- cleanup of the table that the port has.
  cleanup-files :
      (others : List ℤ) (s : Machine W) → HasFile files others s → Cleans others s s.port.fn
  cleanup-files others s (device_open own_nack fn fd f) =
      subst (Cleans others s) (sym fn) (ppdev_cleanup-files host laws s others fd f)
  cleanup-files others s (dev_port_open file_io fn type fd f) =
      subst (Cleans others s) (sym fn) (dev_port_cleanup-files host laws s others type fd f)
  cleanup-files others s (no_file_open file_io fn type f) =
      subst (Cleans others s) (sym fn) (io_cleanup-files host laws s others type f)

  deref-files :
      (others : List ℤ) (s : Machine W)
      → files s.world ≡ others
      → Returns (λ _ t. files t.world ≡ others) (deref_port (linux_methods host rounds) s)
  unfolding deref_port
  deref-files others s f =
      Returns.branch' (truthy (decr s.port.ref)) _ _ _ _ (λ _. returns f) λ _. returns f

  -- Closing a port that holds its file.
  close-files :
      (others : List ℤ) (s : Machine W)
      → HasFile files others s
      → s.port.opened ≡ true
      → Returns (λ _ t. files t.world ≡ others) (ieee1284_close (linux_methods host rounds) s)
  unfolding ieee1284_close
  close-files others s h opened =
      Returns.branch (not s.port.opened) _ _ s (λ shut. absurd (cc))
        λ _. Returns.bind (cleanup-files others s h) λ _ t f.
          Returns.bind
            (deref-files others (record t { port = record (t.port) { opened = false } }) f)
            λ _ u g. returns g

  -- The port is open and holds its file, or it is not open and holds none.
  abbrev Ended : List ℤ → ℤ × Option ℕ → Machine W → Type 0
  Ended others r t =
      ((t.port.opened ≡ true) × HasFile files others t)
      ⊎ ((t.port.opened ≡ false) × (files t.world ≡ others))

  HasFile-opened :
      {others : List ℤ} (t : Machine W)
      → HasFile files others t
      → HasFile files others
          (record t { port = record (t.port) { opened = true; ref = incr t.port.ref } })
  HasFile-opened t (device_open n fn fd f) = device_open n fn fd f
  HasFile-opened t (dev_port_open b fn type fd f) = dev_port_open b fn type fd f
  HasFile-opened t (no_file_open b fn type f) = no_file_open b fn type f

  -- A port that is not open is opened and closed with the tables of the library on Linux, with any
  -- flags: both calls return, and whether the open succeeds or not, and whichever access method it
  -- has found, the open files are those of before. LPT is not among the capabilities, and the system
  -- opens and closes files as its manual says.
  pub open-close-files :
      (capabilities : ℕ) (disallow_ppdev : Bool) (flags : ℕ) (caps : Option ℕ) (s : Machine W)
      → meets capabilities Capable.lpt ≡ false
      → s.port.opened ≡ false
      → Returns
          (λ _ t. files t.world ≡ files s.world)
          ((do
            ieee1284_open (linux_methods host rounds) capabilities disallow_ppdev flags caps
            ieee1284_close (linux_methods host rounds))
            s)
  unfolding ieee1284_open ieee1284_close
  open-close-files capabilities disallow_ppdev flags caps s no_lpt shut =
      let others = files s.world in
      Returns.branch' s.port.opened _ _ s _ (λ is_open. absurd (cc))
        λ _.
          Returns.bind
            (Returns.bind {Q = Ended others}
              (Returns.also
                (init_port-Tried (linux_methods host rounds) files others capabilities no_lpt
                  (λ flags caps u type fn f.
                    from_here (Tried files) _ f (ppdev_init-Tried host laws true flags caps u fn))
                  (λ flags caps u type fn f.
                    from_here (Tried files) _ f
                      (io_init-Tried host laws false flags caps u fn (inl (rw type refl))))
                  (λ flags caps u type fn f.
                    from_here (Tried files) _ f
                      (io_init-Tried host laws false flags caps u fn (inr (rw type refl))))
                  disallow_ppdev flags _ s refl)
                (init_port-lifetime (linux_methods-LifetimeKept host rounds capabilities no_lpt)
                  disallow_ppdev flags _ s))
              λ (ret, caps) t e.
                Returns.branch (truthy ret) _ _ t
                  (λ failed. elim e.0 [
                    | inl (no_fail, _) ↦ absurd (cc)
                    | inr (_, f) ↦ returns (inr (ap (λ (l : Lifetime). l.opened) e.1 ∙ shut, f))
                  ])
                  λ fine. elim e.0 [
                    | inl (_, h) ↦ returns (inl (refl, HasFile-opened t h))
                    | inr (no_success, _) ↦ absurd (cc)
                  ])
            λ r t e. elim e [
              | inl (opened, h) ↦ close-files others t h opened
              | inr (closed, f) ↦
                  Returns.branch (not t.port.opened) _ _ t (λ _. returns f) λ is_open. absurd (cc)
            ]
