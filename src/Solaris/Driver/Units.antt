-- ===== src/Solaris/Driver/Units.antt =====
-- What attach and detach of solaris_io/iop.c take from the kernel, and give back.
use libieee.Common.{
  Bool, Bool-cases, Option, ap, false, if◌then◌else◌, inl, inr, not, refl, some, true, ℕ, ◌∙◌, ◌≡◌,
}
use libieee.Solaris.Driver.{Kernel, iopattach, iopdetach}

-- What the kernel keeps for a unit.
pub record Resources : Type 0 where
  pub soft_state : Bool
  pub mutex : Bool
  pub minor_node : Bool

abbrev pub no_resources : Resources
no_resources = record { soft_state = false; mutex = false; minor_node = false }

abbrev pub all_resources : Resources
all_resources = record { soft_state = true; mutex = true; minor_node = true }

-- What the kernel's functions do to the resources of a unit.
pub record Accounts {K : Type 0} (kernel : Kernel K) (unit : ℕ) (holds : K → Resources)
    : Type 0 where
  pub zalloc :
      (k : K)
      → holds (kernel.soft_state_zalloc unit k).1 ≡ (
          if (kernel.soft_state_zalloc unit k).0
          then record (holds k) { soft_state = true }
          else holds k)
  pub free :
      (k : K) → holds (kernel.soft_state_free unit k) ≡ record (holds k) { soft_state = false }
  pub private : (k : K) → holds (kernel.set_driver_private unit k) ≡ holds k
  pub init : (k : K) → holds (kernel.mutex_init unit k) ≡ record (holds k) { mutex = true }
  pub destroy : (k : K) → holds (kernel.mutex_destroy unit k) ≡ record (holds k) { mutex = false }
  pub create :
      (k : K)
      → holds (kernel.create_minor_node unit k).1 ≡ (
          if (kernel.create_minor_node unit k).0
          then record (holds k) { minor_node = true }
          else holds k)
  pub remove :
      (k : K) → holds (kernel.remove_minor_node unit k) ≡ record (holds k) { minor_node = false }
  pub report : (k : K) → holds (kernel.report_dev unit k) ≡ holds k
  pub found : (k : K) → kernel.get_soft_state unit k ≡ (holds k).soft_state

module _ {K : Type 0} (kernel : Kernel K) (unit : ℕ) {holds : K → Resources}
    (accounts : Accounts kernel unit holds) where
  -- The unit has been attached, and a detach gives back what it has; or it has not, and has nothing.
  pub data Attached : Option (Bool × K) → Type 0 where
    attached :
        (k t : K)
        → holds k ≡ all_resources
        → iopdetach kernel true unit k ≡ some (true, t)
        → holds t ≡ no_resources
        → Attached (some (true, k))
    not_attached : (k : K) → holds k ≡ no_resources → Attached (some (false, k))

  detach-no_resources :
      (k : K)
      → holds k ≡ all_resources
      → (t : K) × (iopdetach kernel true unit k ≡ some (true, t)) × (holds t ≡ no_resources)
  unfolding iopdetach
  detach-no_resources k h =
      let there : kernel.get_soft_state unit k ≡ true =
        accounts.found k ∙ ap (λ (r : Resources). r.soft_state) h in
      (
        kernel.soft_state_free unit (kernel.mutex_destroy unit (kernel.remove_minor_node unit k)),
        rw there refl,
        accounts.free _
            ∙ ap (λ (r : Resources). record r { soft_state = false })
                (accounts.destroy _
                  ∙ ap (λ (r : Resources). record r { mutex = false })
                      (accounts.remove k
                        ∙ ap (λ (r : Resources). record r { minor_node = false }) h)),
      )

  -- The end of an attach, once the unit has its state.
  made-Attached :
      (k : K)
      → holds k ≡ record no_resources { soft_state = true; mutex = true }
      → Attached (
          let (created, k) = kernel.create_minor_node unit k in
          if not created
          then some (false, kernel.soft_state_free unit (kernel.mutex_destroy unit k))
          else some (true, kernel.report_dev unit k))
  made-Attached k h = elim (Bool-cases (kernel.create_minor_node unit k).0) [
    | inl e ↦
        let all : holds (kernel.report_dev unit (kernel.create_minor_node unit k).1)
            ≡ all_resources =
          accounts.report _ ∙ (accounts.create k ∙ rw e (rw h refl)) in
        let (t, given_back, gone) = detach-no_resources _ all in
        rw e (attached _ t all given_back gone)
    | inr e ↦
        let left : holds (kernel.create_minor_node unit k).1
            ≡ record no_resources { soft_state = true; mutex = true } =
          accounts.create k ∙ rw e h in
        rw e (
          not_attached _ (
            accounts.free _
            ∙ ap (λ (r : Resources). record r { soft_state = false })
                (accounts.destroy _ ∙ ap (λ (r : Resources). record r { mutex = false }) left)))
  ]

  -- An attach of a unit that has nothing never uses a null pointer. If it succeeds, the unit has its
  -- state, its mutex and its node, and a detach gives all of them back; if it fails, at any step, the
  -- unit has nothing. The kernel's functions do to the three what their manuals say.
  pub attach-Attached :
      (attaches : Bool) (k : K)
      → holds k ≡ no_resources
      → Attached (iopattach kernel attaches unit k)
  unfolding iopattach
  attach-Attached false k h = not_attached k h
  attach-Attached true k h =
      let allocated = kernel.soft_state_zalloc unit k in
      elim (Bool-cases allocated.0) [
        | inl e ↦
            let soft : holds (kernel.set_driver_private unit allocated.1)
                ≡ record no_resources { soft_state = true } =
              accounts.private _ ∙ (accounts.zalloc k ∙ rw e (rw h refl)) in
            let there : kernel.get_soft_state unit (kernel.set_driver_private unit allocated.1)
                ≡ true =
              accounts.found _ ∙ ap (λ (r : Resources). r.soft_state) soft in
            rw e (
              rw there (
                made-Attached _
                  (accounts.init _ ∙ ap (λ (r : Resources). record r { mutex = true }) soft)))
        | inr e ↦ rw e (not_attached _ (accounts.zalloc k ∙ rw e h))
      ]
