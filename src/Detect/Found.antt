-- ===== src/Detect/Found.antt =====
-- What the checks of src/detect.c add to `capabilities`.
use libieee.Port.Capable
use libieee.Common.{
  Bool, Bool-cases, arith, false, if◌then◌else◌, inl, inr, is_neg, refl, suc, sym, true, truthy,
  zero, ℕ, ℤ, ◌&&◌, ◌+◌, ◌∙◌, ◌∪◌, ◌≡◌,
}
use libieee.Common.Bits.{bit, bit_laws, eq_of_bits}
use libieee.Detect.{
  check_dev_port, check_io, check_nodes, check_proc_type, has_subdirectories, is_directory,
  node_name, open_node, proc_parport, proc_sys_dev_parport, try_claim,
}
use libieee.Detect.Calls.{Known, System}
use libieee.Io.{dev_port_name}
use libieee.Port.Host.{Request}
use libieee.Port.Machine.{Text}

-- The bit, where a check says so.
abbrev pub bit_if : Bool → ℕ → ℕ
bit_if b bit = if b then bit else 0

-- A check that adds its bit exactly if it says so.
unfoldable pub AddsIf : {W : Type 0} → ℕ → Known W → Bool × Known W → Type 0
AddsIf bit k (b, k') = k'.capabilities ≡ k.capabilities ∪ bit_if b bit

bit_of_zero : (k : ℕ) → bit k 0 ≡ false
unfolding bit
bit_of_zero zero = refl
bit_of_zero (suc k) = bit_of_zero k

pub union-zero : (a : ℕ) → a ∪ 0 ≡ a
union-zero a = eq_of_bits (a ∪ 0) a λ k. simp (bit_laws, bit_of_zero) (ground arith)

module _ {W : Type 0} (system : System W) where
  open_node-capabilities :
      (type : Text) (is_parport : Bool) (i : ℕ) (k : Known W)
      → ((open_node system type is_parport i k).1).capabilities ≡ k.capabilities
  unfolding open_node
  open_node-capabilities type is_parport i k =
      elim (Bool-cases
        (is_neg (system.open_read_only (node_name type i) k.world).0 && is_parport)) [
          | inl e ↦ rw e refl
          | inr e ↦ rw e refl
        ]

  try_claim-capabilities :
      (fd : ℤ) (k : Known W) → ((try_claim system fd k).1).capabilities ≡ k.capabilities
  unfolding try_claim
  try_claim-capabilities fd k =
      elim (Bool-cases (truthy ((system.host.ioctl fd Request.ppclaim k.world).0.0))) [
        | inl e ↦ rw e refl
        | inr e ↦ rw e refl
      ]

  pub check_nodes-capabilities :
      (type : Text) (is_parport : Bool) (n i : ℕ) (k : Known W)
      → ((check_nodes system type is_parport n i k).1).capabilities ≡ k.capabilities
  unfolding check_nodes
  check_nodes-capabilities type is_parport zero i k = refl
  check_nodes-capabilities type true (suc n) i k =
      let opened = open_node system type true i k in
      let kept = open_node-capabilities type true i k in
      elim (Bool-cases (is_neg opened.0)) [
        | inl e ↦ rw e (check_nodes-capabilities type true n (i + 1) opened.1 ∙ kept)
        | inr e ↦ rw e (try_claim-capabilities opened.0 opened.1 ∙ kept)
      ]
  check_nodes-capabilities type false (suc n) i k =
      let opened = open_node system type false i k in
      let kept = open_node-capabilities type false i k in
      elim (Bool-cases (is_neg opened.0)) [
        | inl e ↦ rw e (check_nodes-capabilities type false n (i + 1) opened.1 ∙ kept)
        | inr e ↦ rw e kept
      ]

  pub check_dev_port-AddsIf : (k : Known W) → AddsIf Capable.dev_port k (check_dev_port system k)
  unfolding check_dev_port AddsIf
  check_dev_port-AddsIf k =
      elim (Bool-cases (is_neg (system.host.open_file dev_port_name k.world).0)) [
        | inl e ↦ rw e (sym (union-zero k.capabilities))
        | inr e ↦ rw e refl
      ]

  pub check_io-AddsIf : (k : Known W) → AddsIf Capable.io k (check_io system k)
  unfolding check_io AddsIf
  check_io-AddsIf k = elim (Bool-cases (truthy (system.host.ioperm 0x378 3 1 k.world).0)) [
    | inl e ↦ rw e (sym (union-zero k.capabilities))
    | inr e ↦ rw e refl
  ]

  -- The bits of check_proc_type: at most one of the two.
  pub check_proc_type-bits :
      (k : Known W)
      → (sys proc : Bool) × (((check_proc_type system k).1).capabilities
          ≡ k.capabilities
            ∪ (if sys then Capable.proc_sys_dev_parport else bit_if proc Capable.proc_parport))
  unfolding check_proc_type
  check_proc_type-bits k =
      let first = system.stat proc_sys_dev_parport k.world in
      let second = system.stat proc_parport first.1 in
      elim (Bool-cases (is_directory system first.0)) [
        | inl e ↦ (true, false, rw e refl)
        | inr e ↦ elim (Bool-cases (has_subdirectories system second.0)) [
          | inl f ↦ (false, true, rw e (rw f refl))
          | inr f ↦ (false, false, rw e (rw f refl))
        ]
      ]
