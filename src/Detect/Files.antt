-- ===== src/Detect/Files.antt =====
-- detect_environment of src/detect.c closes each file that it opens.
use libieee.Port.Capable
use libieee.Common.{
  Bool, Bool-cases, List, false, if◌then◌else◌, inl, inr, is_neg, meets, refl, suc, true, truthy,
  zero, ℕ, ℤ, ◌&&◌, ◌+◌, ◌==◌, ◌∙◌, ◌∷◌, ◌≡◌,
}
use libieee.Common.Bits.{bit}
use libieee.Detect.{
  check_dev_node, check_dev_port, check_io, check_lpt, check_nodes, check_proc_type, detect_all,
  detect_environment, has_subdirectories, is_directory, lp, node_name, open_node, parport,
  proc_parport, proc_sys_dev_parport, try_claim, udev_name, unless_forbidden,
}
use libieee.Detect.Calls.{Detecting, Known, System, found_capable, pure}
use libieee.Io.{dev_port_name}
use libieee.Port.Host.{Request}
use libieee.Port.Machine.{Text}

-- The open files of a world, the last one opened first, and what the calls of the system do to them.
pub record Descriptors {W : Type 0} (system : System W) (files : W → List ℤ) : Type 0 where
  pub opens_read_only :
      (name : Text) (w : W)
      → files (system.open_read_only name w).1
        ≡ (let fd = (system.open_read_only name w).0 in if is_neg fd then files w else fd ∷ files w)
  pub opens :
      (name : Text) (w : W)
      → files (system.host.open_file name w).1
        ≡ (let fd = (system.host.open_file name w).0 in if is_neg fd then files w else fd ∷ files w)
  pub closes :
      (fd : ℤ) (rest : List ℤ) (w : W)
      → files w ≡ fd ∷ rest
      → files (system.host.close_file fd w) ≡ rest
  pub ioctl :
      (fd : ℤ) (request : Request) (w : W) → files (system.host.ioctl fd request w).1 ≡ files w
  pub ioperm : (from num on : ℕ) (w : W) → files (system.host.ioperm from num on w).1 ≡ files w
  pub stat : (name : Text) (w : W) → files (system.stat name w).1 ≡ files w

module _ {W : Type 0} (system : System W) (files : W → List ℤ)
    (fds : Descriptors system files) where
  -- A check that leaves the open files.
  abbrev Leaves : {A : Type 0} → Known W → A × Known W → Type 0
  Leaves k (a, k') = files k'.world ≡ files k.world

  open_node-files :
      (type : Text) (is_parport : Bool) (i : ℕ) (k : Known W)
      → files (open_node system type is_parport i k).1.world ≡ (
          let fd = (open_node system type is_parport i k).0 in
          if is_neg fd then files k.world else fd ∷ files k.world)
  unfolding open_node
  open_node-files type true i k =
      let first = system.open_read_only (node_name type i) k.world in
      let listed = fds.opens_read_only (node_name type i) k.world in
      elim (Bool-cases (is_neg first.0)) [
        | inl e ↦
            let none_new : files first.1 ≡ files k.world = listed ∙ rw e refl in
            rw e (fds.opens_read_only (udev_name type i) first.1 ∙ rw none_new refl)
        | inr e ↦ rw e (listed ∙ rw e refl)
      ]
  open_node-files type false i k =
      let first = system.open_read_only (node_name type i) k.world in
      let listed = fds.opens_read_only (node_name type i) k.world in
      elim (Bool-cases (is_neg first.0)) [
        | inl e ↦ rw e (listed ∙ rw e refl)
        | inr e ↦ rw e (listed ∙ rw e refl)
      ]

  try_claim-files : (fd : ℤ) (k : Known W) → Leaves k (try_claim system fd k)
  unfolding try_claim
  try_claim-files fd k =
      let claimed = system.host.ioctl fd Request.ppclaim k.world in
      elim (Bool-cases (truthy (claimed.0.0))) [
        | inl e ↦ rw e (fds.ioctl fd Request.ppclaim k.world)
        | inr e ↦
            rw e (fds.ioctl fd Request.pprelease claimed.1 ∙ fds.ioctl fd Request.ppclaim k.world)
      ]

  check_nodes-files :
      (type : Text) (is_parport : Bool) (n i : ℕ) (k : Known W)
      → Leaves k (check_nodes system type is_parport n i k)
  unfolding check_nodes
  check_nodes-files type is_parport zero i k = refl
  check_nodes-files type true (suc n) i k =
      let opened = open_node system type true i k in
      let listed = open_node-files type true i k in
      elim (Bool-cases (is_neg opened.0)) [
        | inl e ↦ rw e (check_nodes-files type true n (i + 1) opened.1 ∙ (listed ∙ rw e refl))
        | inr e ↦
            rw e
              (fds.closes opened.0 _ _ (try_claim-files opened.0 opened.1 ∙ (listed ∙ rw e refl)))
      ]
  check_nodes-files type false (suc n) i k =
      let opened = open_node system type false i k in
      let listed = open_node-files type false i k in
      elim (Bool-cases (is_neg opened.0)) [
        | inl e ↦ rw e (check_nodes-files type false n (i + 1) opened.1 ∙ (listed ∙ rw e refl))
        | inr e ↦ rw e (fds.closes opened.0 _ _ (listed ∙ rw e refl))
      ]

  check_dev_node-files : (type : Text) (k : Known W) → Leaves k (check_dev_node system type k)
  unfolding check_dev_node
  check_dev_node-files type k = check_nodes-files type _ 8 0 k

  check_dev_port-files : (k : Known W) → Leaves k (check_dev_port system k)
  unfolding check_dev_port
  check_dev_port-files k =
      let opened = system.host.open_file dev_port_name k.world in
      let listed = fds.opens dev_port_name k.world in
      elim (Bool-cases (is_neg opened.0)) [
        | inl e ↦ rw e (listed ∙ rw e refl)
        | inr e ↦ rw e (fds.closes opened.0 _ _ (listed ∙ rw e refl))
      ]

  check_io-files : (k : Known W) → Leaves k (check_io system k)
  unfolding check_io
  check_io-files k =
      let allowed = system.host.ioperm 0x378 3 1 k.world in
      elim (Bool-cases (truthy allowed.0)) [
        | inl e ↦ rw e (fds.ioperm 0x378 3 1 k.world)
        | inr e ↦ rw e (fds.ioperm 0x378 3 0 allowed.1 ∙ fds.ioperm 0x378 3 1 k.world)
      ]

  check_proc_type-files : (k : Known W) → Leaves k (check_proc_type system k)
  unfolding check_proc_type
  check_proc_type-files k =
      let first = system.stat proc_sys_dev_parport k.world in
      let second = system.stat proc_parport first.1 in
      let once = fds.stat proc_sys_dev_parport k.world in
      elim (Bool-cases (is_directory system first.0)) [
        | inl e ↦ rw e once
        | inr e ↦ elim (Bool-cases (has_subdirectories system second.0)) [
          | inl f ↦ rw e (rw f (fds.stat proc_parport first.1 ∙ once))
          | inr f ↦ rw e (rw f (fds.stat proc_parport first.1 ∙ once))
        ]
      ]

  unless_forbidden-files :
      (forbidden bit : ℕ) (check : Detecting W Bool) (k : Known W)
      → Leaves k (check k)
      → Leaves k (unless_forbidden system forbidden bit check k)
  unless_forbidden-files forbidden bit check k same = elim (Bool-cases (meets forbidden bit)) [
    | inl e ↦ rw e refl
    | inr e ↦ rw e same
  ]

  record_ppdev-files :
      (p : Bool) (k : Known W) → Leaves k ((if p then found_capable Capable.ppdev else pure tt) k)
  record_ppdev-files true k = refl
  record_ppdev-files false k = refl

  lp_node-files :
      (p : Bool) (k : Known W) → Leaves k ((if p then pure false else check_dev_node system lp) k)
  lp_node-files true k = refl
  lp_node-files false k = check_dev_node-files lp k

  detect_all-files : (forbidden : ℕ) (k : Known W) → Leaves k (detect_all system forbidden k)
  unfolding detect_all
  detect_all-files forbidden k =
      let (p, k1) =
        unless_forbidden system forbidden Capable.ppdev (check_dev_node system parport) k in
      let k2 = ((if p then found_capable Capable.ppdev else pure tt) k1).1 in
      let k3 = (unless_forbidden system forbidden Capable.io (check_io system) k2).1 in
      let k4 = (unless_forbidden system forbidden Capable.dev_port (check_dev_port system) k3).1 in
      let k5 = (unless_forbidden system forbidden Capable.lpt (check_lpt system) k4).1 in
      let k6 = ((if p then pure false else check_dev_node system lp) k5).1 in
      check_proc_type-files k6
      ∙ (lp_node-files p k5
          ∙ (unless_forbidden-files forbidden Capable.lpt (check_lpt system) k4 refl
              ∙ (unless_forbidden-files forbidden Capable.dev_port (check_dev_port system) k3
                    (check_dev_port-files k3)
                  ∙ (unless_forbidden-files forbidden Capable.io (check_io system) k2
                        (check_io-files k2)
                      ∙ (record_ppdev-files p k1
                          ∙ unless_forbidden-files forbidden Capable.ppdev
                              (check_dev_node system parport) k
                              (check_dev_node-files parport k))))))

  -- A look at the environment leaves just those files open that were open before, whatever it finds
  -- and whatever is forbidden, on a system that opens and closes files as its manual says.
  pub detect_environment-files :
      (forbidden : ℕ) (k : Known W)
      → files ((detect_environment system forbidden k).1.world) ≡ files k.world
  unfolding detect_environment
  detect_environment-files forbidden k = elim (Bool-cases (k.detected && forbidden == 0)) [
    | inl e ↦ rw e refl
    | inr e ↦ rw e (detect_all-files forbidden (record k { detected = true; capabilities = 0 }))
  ]
