-- ===== src/Detect/Forbidden.antt =====
-- What detect_environment of src/detect.c finds: nothing that it is told not to look for.
use libieee.Port.Capable
use libieee.Common.{
  Bool, Bool-cases, arith, false, if◌then◌else◌, inl, inr, meets, pos, refl, sym, true, ℕ, ◌&&◌,
  ◌==◌, ◌∪◌, ◌≡◌, ◌⊎◌,
}
use libieee.Common.Bits.{bit}
use libieee.Detect.{
  check_dev_node, check_dev_port, check_io, check_lpt, detect_all, detect_environment, lp, parport,
  unless_forbidden,
}
use libieee.Detect.Calls.{Detecting, Known, System, found_capable, pure}
use libieee.Detect.Found.{
  AddsIf, bit_if, check_dev_port-AddsIf, check_io-AddsIf, check_nodes-capabilities,
  check_proc_type-bits, union-zero,
}

-- `capabilities`, by what the checks say.
abbrev capabilities_of : (ppdev io dev_port sys proc : Bool) → ℕ
capabilities_of ppdev io dev_port sys proc =
    0
    ∪ bit_if ppdev Capable.ppdev
    ∪ bit_if io Capable.io
    ∪ bit_if dev_port Capable.dev_port
    ∪ (if sys then Capable.proc_sys_dev_parport else bit_if proc Capable.proc_parport)

-- Nothing is in `capabilities` that is forbidden, and of the two trees in /proc at most one.
pub record Permitted (forbidden capabilities : ℕ) : Type 0 where
  pub ppdev : (meets forbidden Capable.ppdev && meets capabilities Capable.ppdev) ≡ false
  pub io : (meets forbidden Capable.io && meets capabilities Capable.io) ≡ false
  pub dev_port : (meets forbidden Capable.dev_port && meets capabilities Capable.dev_port) ≡ false
  pub lpt : meets capabilities Capable.lpt ≡ false
  pub one_proc :
      (meets capabilities Capable.proc_parport && meets capabilities Capable.proc_sys_dev_parport)
      ≡ false

module _ (p i d s q : Bool) where
  without_ppdev : p ≡ false → meets (capabilities_of p i d s q) Capable.ppdev ≡ false
  without_ppdev h = ground arith

  without_io : i ≡ false → meets (capabilities_of p i d s q) Capable.io ≡ false
  without_io h = ground arith

  without_dev_port : d ≡ false → meets (capabilities_of p i d s q) Capable.dev_port ≡ false
  without_dev_port h = ground arith

  without_lpt : meets (capabilities_of p i d s q) Capable.lpt ≡ false
  without_lpt = ground arith

  one_of_proc :
      (meets (capabilities_of p i d s q) Capable.proc_parport
        && meets (capabilities_of p i d s q) Capable.proc_sys_dev_parport)
      ≡ false
  one_of_proc = ground arith

-- A check that may be skipped finds nothing where it is.
abbrev Obeys : ℕ → ℕ → Bool → Type 0
Obeys forbidden bit b = meets forbidden bit ≡ true → b ≡ false

not_both : (b c : Bool) → (b ≡ true → c ≡ false) → (b && c) ≡ false
not_both true c h = h refl
not_both false c h = refl

capabilities_of-Permitted :
    (forbidden : ℕ) (p i d s q : Bool)
    → Obeys forbidden Capable.ppdev p
    → Obeys forbidden Capable.io i
    → Obeys forbidden Capable.dev_port d
    → Permitted forbidden (capabilities_of p i d s q)
capabilities_of-Permitted forbidden p i d s q hp hi hd = record {
  ppdev = not_both _ _ λ h. without_ppdev p i d s q (hp h);
  io = not_both _ _ λ h. without_io p i d s q (hi h);
  dev_port = not_both _ _ λ h. without_dev_port p i d s q (hd h);
  lpt = without_lpt p i d s q;
  one_proc = one_of_proc p i d s q;
}

added_up :
    {c0 c1 c2 c3 c4 c5 c6 c7 : ℕ} (a b d e : ℕ)
    → c0 ≡ 0
    → c1 ≡ c0
    → c2 ≡ c1 ∪ a
    → c3 ≡ c2 ∪ b
    → c4 ≡ c3 ∪ d
    → c5 ≡ c4
    → c6 ≡ c5
    → c7 ≡ c6 ∪ e
    → c7 ≡ 0 ∪ a ∪ b ∪ d ∪ e
added_up a b d e h0 h1 h2 h3 h4 h5 h6 h7 = cc

module _ {W : Type 0} (system : System W) (forbidden : ℕ) where
  skipped :
      (bit : ℕ) (check : Detecting W Bool) (k : Known W)
      → AddsIf bit k (check k)
      → AddsIf bit k (unless_forbidden system forbidden bit check k)
        × Obeys forbidden bit ((unless_forbidden system forbidden bit check k).0)
  unfolding AddsIf
  skipped bit check k adds = elim (Bool-cases (meets forbidden bit)) [
    | inl e ↦ (rw e (sym (union-zero k.capabilities)), λ h. rw e refl)
    | inr e ↦ (rw e adds, λ h. absurd (cc))
  ]

  parport_node :
      (k : Known W)
      → (((unless_forbidden system forbidden Capable.ppdev (check_dev_node system parport) k).1
            ).capabilities
          ≡ k.capabilities)
        × Obeys forbidden Capable.ppdev
            ((unless_forbidden system forbidden Capable.ppdev (check_dev_node system parport) k).0)
  unfolding check_dev_node
  parport_node k = elim (Bool-cases (meets forbidden Capable.ppdev)) [
    | inl e ↦ (rw e refl, λ h. rw e refl)
    | inr e ↦ (rw e (check_nodes-capabilities system parport _ 8 0 k), λ h. absurd (cc))
  ]

  record_ppdev :
      (p : Bool) (k : Known W)
      → ((if p then found_capable Capable.ppdev else pure tt) k).1.capabilities
        ≡ k.capabilities ∪ bit_if p Capable.ppdev
  record_ppdev true k = refl
  record_ppdev false k = sym (union-zero k.capabilities)

  no_lpt :
      (k : Known W)
      → (unless_forbidden system forbidden Capable.lpt (check_lpt system) k).1.capabilities
        ≡ k.capabilities
  no_lpt k = elim (Bool-cases (meets forbidden Capable.lpt)) [
    | inl e ↦ rw e refl
    | inr e ↦ rw e refl
  ]

  lp_node :
      (p : Bool) (k : Known W)
      → ((if p then pure false else check_dev_node system lp) k).1.capabilities ≡ k.capabilities
  unfolding check_dev_node
  lp_node true k = refl
  lp_node false k = check_nodes-capabilities system lp _ 8 0 k

  detect_all-Permitted :
      (k : Known W)
      → k.capabilities ≡ 0
      → Permitted forbidden ((detect_all system forbidden k).1.capabilities)
  unfolding detect_all AddsIf
  detect_all-Permitted k none_yet =
      let (p, k1) =
        unless_forbidden system forbidden Capable.ppdev (check_dev_node system parport) k in
      let (kept, hp) = parport_node k in
      let k2 = ((if p then found_capable Capable.ppdev else pure tt) k1).1 in
      let io_found = unless_forbidden system forbidden Capable.io (check_io system) k2 in
      let (adds_io, hi) = skipped Capable.io (check_io system) k2 (check_io-AddsIf system k2) in
      let port_found =
        unless_forbidden system forbidden Capable.dev_port (check_dev_port system) io_found.1 in
      let (adds_port, hd) =
        skipped Capable.dev_port (check_dev_port system) io_found.1
          (check_dev_port-AddsIf system io_found.1) in
      let k5 = (unless_forbidden system forbidden Capable.lpt (check_lpt system) port_found.1).1 in
      let k6 = ((if p then pure false else check_dev_node system lp) k5).1 in
      let (sys, proc, adds_proc) = check_proc_type-bits system k6 in
      rw
        (added_up _ _ _ _ none_yet kept (record_ppdev p k1) adds_io adds_port (no_lpt port_found.1)
          (lp_node p k5) adds_proc)
        (capabilities_of-Permitted forbidden p io_found.0 port_found.0 sys proc hp hi hd)

  -- The environment is looked at again on the first call, and wherever something is forbidden. Then
  -- none of ppdev, I/O instructions and /dev/port is found where it is forbidden, LPT is not found
  -- on Linux at all, and of the two trees in /proc at most one is found. On any other call nothing
  -- is done.
  pub detect_environment-Permitted :
      (k : Known W)
      → (((k.detected && forbidden == 0) ≡ false)
          × Permitted forbidden ((detect_environment system forbidden k).1.capabilities))
        ⊎ (((k.detected && forbidden == 0) ≡ true)
            × (detect_environment system forbidden k ≡ (pos 0, k)))
  unfolding detect_environment
  detect_environment-Permitted k = elim (Bool-cases (k.detected && forbidden == 0)) [
    | inl known ↦ inr (known, rw known refl)
    | inr looks ↦ inl (
      looks,
      rw looks (detect_all-Permitted (record k { detected = true; capabilities = 0 }) refl),
    )
  ]
