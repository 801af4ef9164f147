-- ===== src/Ppdev/Modes/Agreed.antt =====
-- The mode that a port is recorded to be in, after negotiate and set_mode of src/access_ppdev.c.
use mathlib.Core.Path.{subst}
use libieee.Port.Mode
use libieee.Port.Returns
use libieee.Common.{
  ==_iff, Bool-cases, false, if◌then◌else◌, inl, inr, negsuc, not, pos, refl, suc, sym, true,
  truthy, ℕ, ℤ, ◌&&◌, ◌==◌, ◌∙◌, ◌∪◌, ◌≡◌, ◌⊎◌,
}
use libieee.Port.Host.{Host, Request}
use libieee.Port.Machine.{Machine}
use libieee.Port.Returns.{Returns, returns}
use libieee.Ppdev.Modes.{
  change_flags, change_mode, negotiate, set_mode, translate_error_code, wanted_flags, which_mode,
}
use libieee.Ppdev.Parport.{addr_flag, data_flag}
use libieee.Ppdev.Pins.{ask_device}

-- Success with the mode, or an error and the mode as it was.
abbrev pub Agreed : {W : Type 0} → ℕ → Machine W → ℤ → Machine W → Type 0
Agreed mode s r t =
    ((truthy r ≡ false) × (t.port.current_mode ≡ mode))
    ⊎ ((truthy r ≡ true) × (t.port.current_mode ≡ s.port.current_mode))

-- The mode that the device has, as a function of the world, which PPSETMODE sets where it returns 0,
-- and leaves as it was where it fails.
pub record Device {W : Type 0} (host : Host W) (mode_of : W → ℕ) : Type 0 where
  pub sets :
      (fd : ℤ) (m : ℕ) (w : W)
      → truthy ((host.ioctl fd (Request.ppsetmode m) w).0.0) ≡ false
      → mode_of (host.ioctl fd (Request.ppsetmode m) w).1 ≡ m
  pub fails :
      (fd : ℤ) (m : ℕ) (w : W)
      → truthy ((host.ioctl fd (Request.ppsetmode m) w).0.0) ≡ true
      → mode_of (host.ioctl fd (Request.ppsetmode m) w).1 ≡ mode_of w

module _ {W : Type 0} (host : Host W) where
  -- An error stays one.
  pub truthy-translate_error_code : (r : ℤ) → truthy (translate_error_code host r) ≡ truthy r
  unfolding translate_error_code
  truthy-translate_error_code (pos n) = refl
  truthy-translate_error_code (negsuc n) = elim (Bool-cases (suc n == host.eagain)) [
    | inl again ↦ rw again refl
    | inr other ↦ rw other refl
  ]

  -- A negotiation returns, with success and the port in the mode asked for, or with an error and the
  -- port in the mode that it was in.
  pub negotiate-Agreed :
      (mode : ℕ) (s : Machine W) → Returns (Agreed mode s) (negotiate host mode s)
  unfolding negotiate ask_device
  negotiate-Agreed mode s =
      let r = (host.ioctl s.port.fd (Request.ppnegot (which_mode mode 0)) s.world).0.0 in
      let same = truthy-translate_error_code r in
      Returns.branch (truthy r) _ _ _
        (λ failed.
          Returns.branch (host.errno _ == host.eio) _ _ _ (λ _. returns (inr (refl, refl)))
            λ _.
              Returns.branch (host.errno _ == host.enxio) _ _ _ (λ _. returns (inr (refl, refl)))
                λ _. returns (inr (same ∙ failed, refl)))
        λ worked. returns (inl (same ∙ worked, refl))

  change_flags-kept :
      (mode f : ℕ) (ret : ℤ) (s : Machine W)
      → (not (s.port.access_priv.current_flags == f) && mode == Mode.epp) ≡ false
      → Returns (λ r t. (r ≡ ret) × (t ≡ s)) (change_flags host mode f ret s)
  unfolding change_flags
  change_flags-kept mode f ret s none_needed = rw none_needed (returns (refl, refl))

  module _ {mode_of : W → ℕ} (device : Device host mode_of) where
    -- The device has the mode that is recorded.
    abbrev pub InStep : Machine W → Type 0
    InStep s = mode_of s.world ≡ s.port.current_mode

    change_mode-Agreed :
        (m : ℕ) (s : Machine W)
        → InStep s
        → Returns
            (λ r t. Agreed m s r t × InStep t × (t.port.access_priv ≡ s.port.access_priv))
            (change_mode host m s)
    unfolding change_mode ask_device
    change_mode-Agreed m s in_step =
        let answer = host.ioctl s.port.fd (Request.ppsetmode m) s.world in
        let same = truthy-translate_error_code answer.0.0 in
        let ret = translate_error_code host answer.0.0 in
        Returns.branch (s.port.current_mode == m) _ _ s
          (λ e. returns (inl (refl, (==_iff _ m).0 e), in_step, refl))
          λ _.
            Returns.branch' (truthy ret) _ _ _ _
              (λ failed. returns (
                inr (failed, refl),
                device.fails s.port.fd m s.world (sym same ∙ failed) ∙ in_step,
                refl,
              ))
              λ worked.
                returns
                  (inl (worked, refl), device.sets s.port.fd m s.world (sym same ∙ worked), refl)

    -- A change of mode before a transfer returns, with success and the mode that stands for the one
    -- asked for, with the flag for address or data, or with an error and the mode as it was; and
    -- the device has the mode that the port records, as it had before. The mode has a number for the
    -- device, the device's flags need no change, and the device takes the mode of a request that
    -- succeeds, and keeps its own where the request fails.
    pub set_mode-Agreed :
        (mode flags addr m : ℕ) (s : Machine W)
        → InStep s
        → which_mode mode flags ≡ pos m
        → (not (s.port.access_priv.current_flags == wanted_flags mode flags) && mode == Mode.epp)
          ≡ false
        → Returns
            (λ r t. Agreed (m ∪ (if addr == 0 then data_flag else addr_flag)) s r t × InStep t)
            (set_mode host mode flags addr s)
    unfolding set_mode
    set_mode-Agreed mode flags addr m s in_step e none_needed =
        let kept : (t : Machine W)
            → t.port.access_priv ≡ s.port.access_priv
            → (not (t.port.access_priv.current_flags == wanted_flags mode flags)
                && mode == Mode.epp)
              ≡ false =
          λ t p. rw p none_needed in
        rw (set_mode, e)
          (Returns.bind
            (change_mode-Agreed (m ∪ (if addr == 0 then data_flag else addr_flag)) s in_step)
            λ ret t a.
              Returns.mono (change_flags-kept mode (wanted_flags mode flags) ret t (kept t a.2))
                λ r u k.
                  subst
                    (λ x.
                      Agreed (m ∪ (if addr == 0 then data_flag else addr_flag)) s r x × InStep x)
                    (sym k.1)
                    (
                      subst (λ x. Agreed (m ∪ (if addr == 0 then data_flag else addr_flag)) s x t)
                          (sym k.0) a.0,
                      a.1,
                    ))
