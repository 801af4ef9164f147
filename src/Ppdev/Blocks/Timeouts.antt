-- ===== src/Ppdev/Blocks/Timeouts.antt =====
-- What the transfers of src/access_ppdev.c report, on a system whose calls return -1 on an error and
-- put the reason in errno.
use libieee.Port.E1284
use libieee.Port.Mode
use libieee.Port.Returns
use libieee.Port.Transfer
use libieee.Common.{
  Bool, List, ap, false, if◌then◌else◌, is_minus_one, meets, negsuc, not, pos, refl, sym, true,
  truthy, ℕ, ℤ, ◌&&◌, ◌==◌, ◌||◌, ◌∙◌, ◌∩◌, ◌∪◌, ◌≡◌, ◌≢◌,
}
use libieee.Port.Host.{Host, Request}
use libieee.Port.Machine.{Machine}
use libieee.Port.Methods.{Received}
use libieee.Port.Returns.{Returns, returns}
use libieee.Port.Run.{Run, pure, ◌>>=◌}
use libieee.Ppdev.Blocks.{block_read, block_write, prepare}
use libieee.Ppdev.Modes.{
  change_fl, change_flags, change_mode, do_nonblock, has_others, is_same_mode, set_mode,
  translate_error_code, wanted_flags, which_mode,
}
use libieee.Ppdev.Parport.{addr_flag, data_flag}
use libieee.Ppdev.Pins.{ask_device}

-- Not an error, or -1.
pub data IsReturn : ℤ → Type 0 where
  value : (n : ℕ) → IsReturn (pos n)
  failure : IsReturn (negsuc 0)

pub record Posix {W : Type 0} (host : Host W) : Type 0 where
  pub read : (fd : ℤ) (n : ℕ) (w : W) → IsReturn (host.read fd n w).0.0
  pub write : (fd : ℤ) (bytes : List ℕ) (w : W) → IsReturn (host.write fd bytes w).0
  pub ioctl : (fd : ℤ) (r : Request) (w : W) → IsReturn (host.ioctl fd r w).0.0
  pub eagain : (1 == host.eagain) ≡ false

abbrev is_timeout : ℤ → Bool
is_timeout (pos n) = false
is_timeout (negsuc n) = n == 2

timedout-not : {r : ℤ} → is_timeout r ≡ false → r ≢ E1284.timedout
timedout-not h e =
    let yes_and_no : is_timeout E1284.timedout ≡ false = ap is_timeout (sym e) ∙ h in cc

-- A result that is no timeout, and the record of O_NONBLOCK as it was.
Reported : {W : Type 0} → Machine W → ℤ → Machine W → Type 0
Reported s r t =
    (is_timeout r ≡ false) × (t.port.access_priv.nonblock ≡ s.port.access_priv.nonblock)

IsReturn-if : (b : Bool) {x y : ℤ} → IsReturn x → IsReturn y → IsReturn (if b then x else y)
IsReturn-if true p q = p
IsReturn-if false p q = q

which_mode-IsReturn : (mode flags : ℕ) → IsReturn (which_mode mode flags)
unfolding which_mode
which_mode-IsReturn mode flags =
    IsReturn-if (meets mode (Mode.flag_deviceid ∪ Mode.flag_ext_link) || is_same_mode mode)
      (value mode)
      (IsReturn-if (mode == Mode.ecp)
        (IsReturn-if (meets flags Transfer.rle) (value Mode.ecprle) (
          IsReturn-if (meets flags Transfer.swe) (value Mode.ecpswe)
            (IsReturn-if (has_others flags Transfer.nonblock) failure (value Mode.ecp))))
        (IsReturn-if (mode == Mode.epp)
          (IsReturn-if (meets flags Transfer.swe) (value Mode.eppswe) (
            IsReturn-if (has_others flags (Transfer.fastepp ∪ Transfer.nonblock)) failure
              (value Mode.epp)))
          failure))

module _ {W : Type 0} (host : Host W) (posix : Posix host) where
  translate_error_code-no_timeout :
      (r : ℤ) → IsReturn r → is_timeout (translate_error_code host r) ≡ false
  unfolding translate_error_code
  translate_error_code-no_timeout r (value n) = refl
  translate_error_code-no_timeout r failure = rw posix.eagain refl

  change_mode-Reported : (m : ℕ) (s : Machine W) → Returns (Reported s) (change_mode host m s)
  unfolding change_mode ask_device Reported
  change_mode-Reported m s =
      let r = (host.ioctl s.port.fd (Request.ppsetmode m) s.world).0.0 in
      let late = translate_error_code-no_timeout r (posix.ioctl _ _ _) in
      Returns.branch (s.port.current_mode == m) _ _ s (λ _. returns (refl, refl))
        λ _.
          Returns.branch' (truthy (translate_error_code host r)) _ _ _ _ (λ _. returns (late, refl))
            λ _. returns (late, refl)

  change_flags-Reported :
      (mode f : ℕ) (ret : ℤ) (s : Machine W)
      → is_timeout ret ≡ false
      → Returns (Reported s) (change_flags host mode f ret s)
  unfolding change_flags ask_device Reported
  change_flags-Reported mode f ret s h =
      let r = (host.ioctl s.port.fd (Request.ppsetflags f) s.world).0.0 in
      let late = translate_error_code-no_timeout r (posix.ioctl _ _ _) in
      Returns.branch (not (s.port.access_priv.current_flags == f) && mode == Mode.epp) _ _ s
        (λ _.
          Returns.branch' (truthy (translate_error_code host r)) _ _ _ _ (λ _. returns (late, refl))
            λ _. returns (late, refl))
        λ _. returns (h, refl)

  numbered-Reported :
      (mode flags addr : ℕ) (number : ℤ) (s : Machine W)
      → IsReturn number
      → Returns (Reported s) (
          (elim number as (λ _. Run W ℤ) [
            | negsuc n ↦ pure (negsuc n)
            | pos m ↦ do
              ret ← change_mode host (m ∪ (if addr == 0 then data_flag else addr_flag))
              change_flags host mode (wanted_flags mode flags) ret
          ])
            s)
  unfolding Reported
  numbered-Reported mode flags addr number s failure = returns (refl, refl)
  numbered-Reported mode flags addr number s (value m) =
      Returns.bind (change_mode-Reported (m ∪ (if addr == 0 then data_flag else addr_flag)) s)
        λ ret t a.
          Returns.mono (change_flags-Reported mode (wanted_flags mode flags) ret t a.0)
            λ r u b. (b.0, b.1 ∙ a.1)

  set_mode-Reported :
      (mode flags addr : ℕ) (s : Machine W) → Returns (Reported s) (set_mode host mode flags addr s)
  unfolding set_mode
  set_mode-Reported mode flags addr s =
      numbered-Reported mode flags addr (which_mode mode flags) s (which_mode-IsReturn mode flags)

  change_fl-Reported :
      (change : ℕ → ℕ) (s : Machine W) → Returns (Reported s) (change_fl host change s)
  unfolding change_fl Reported
  change_fl-Reported change s =
      Returns.branch (is_minus_one (host.getfl s.port.fd s.world).0) _ _ _
        (λ _. returns (refl, refl))
        λ _.
          Returns.branch (truthy (host.setfl s.port.fd _ _).0) _ _ _ (λ _. returns (refl, refl))
            λ _. returns (refl, refl)

  do_nonblock-Reported :
      (flags : ℕ) (s : Machine W) → Returns (Reported s) (do_nonblock host flags s)
  unfolding do_nonblock Reported
  do_nonblock-Reported flags s =
      Returns.branch (meets flags Transfer.nonblock && s.port.access_priv.nonblock == 0) _ _ s
        (λ _. change_fl-Reported (λ f. f ∪ host.o_nonblock) s)
        λ _.
          Returns.branch
            (not (meets flags Transfer.nonblock) && not (s.port.access_priv.nonblock == 0)) _ _ s
            (λ _. change_fl-Reported (λ f. f ∩ host.o_nonblock) s) λ _. returns (refl, refl)

  prepare-Reported :
      (mode flags mode_flags addr : ℕ) (s : Machine W)
      → Returns (Reported s) (prepare host mode flags mode_flags addr s)
  unfolding prepare Reported
  prepare-Reported mode flags mode_flags addr s =
      Returns.bind (do_nonblock-Reported flags s) λ ret t a.
        Returns.branch (truthy ret) _ _ t (λ _. returns a)
          λ _. Returns.mono (set_mode-Reported mode mode_flags addr t) λ r u b. (b.0, b.1 ∙ a.1)

  -- No transfer by the device ever reports that it timed out, and none records that it set or cleared
  -- O_NONBLOCK; on a system whose calls return -1 on an error, with an EAGAIN that is not 1.
  pub transfers-Reported :
      (mode flags mode_flags addr len : ℕ) (buffer : List ℕ) (s : Machine W)
      → Returns {A = Received}
          (λ got t.
            (got.0 ≢ E1284.timedout) × (t.port.access_priv.nonblock ≡ s.port.access_priv.nonblock))
          (block_read host mode flags mode_flags addr len s)
        × Returns
            (λ r t.
              (r ≢ E1284.timedout) × (t.port.access_priv.nonblock ≡ s.port.access_priv.nonblock))
            (block_write host mode flags mode_flags addr buffer s)
  unfolding block_read block_write Reported
  transfers-Reported mode flags mode_flags addr len buffer s = (
    Returns.bind (prepare-Reported mode flags mode_flags addr s) λ ret t a.
        Returns.branch (truthy ret) _ _ t (λ _. returns (timedout-not a.0, a.1))
          λ _. returns (timedout-not (translate_error_code-no_timeout _ (posix.read _ _ _)), a.1),
    Returns.bind (prepare-Reported mode flags mode_flags addr s) λ ret t a.
        Returns.branch (truthy ret) _ _ t (λ _. returns (timedout-not a.0, a.1))
          λ _. returns (timedout-not (translate_error_code-no_timeout _ (posix.write _ _ _)), a.1),
  )
