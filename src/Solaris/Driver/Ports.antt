-- ===== src/Solaris/Driver/Ports.antt =====
-- What reaches the I/O ports through solaris_io/iop.c, and from whom.
use libieee.Common.{List, ap, false, refl, some, true, ℕ, ◌%◌, ◌∙◌, ◌∷◌, ◌≡◌}
use libieee.Solaris.{iop_read, iop_write}
use libieee.Solaris.Driver.{Kernel, iopioctl, iopopen}

-- A unit that is attached, on a kernel that can read and write the process: `seen` is what has been
-- written to the ports, the last one first, and `level` what they show.
pub record Serving {W : Type 0} (kernel : Kernel W) (minor : ℕ) (seen : W → List (ℕ × ℕ))
    (level : W → ℕ → ℕ) : Type 0 where
  pub there : (w : W) → kernel.get_soft_state minor w ≡ true
  pub reads : (w : W) → (kernel.copyin w).0 ≡ false
  pub writes : (w : W) → (kernel.copyout w).0 ≡ false
  pub enters :
      (w : W)
      → (seen (kernel.mutex_enter minor w) ≡ seen w)
        × (level (kernel.mutex_enter minor w) ≡ level w)
  pub exits : (w : W) → seen (kernel.mutex_exit minor w) ≡ seen w
  pub copies_in :
      (w : W) → (seen (kernel.copyin w).1 ≡ seen w) × (level (kernel.copyin w).1 ≡ level w)
  pub copies_out : (w : W) → seen (kernel.copyout w).1 ≡ seen w
  pub inputs :
      (port : ℕ) (w : W)
      → ((kernel.inb port w).0 ≡ level w port) × (seen (kernel.inb port w).1 ≡ seen w)
  pub outputs : (port value : ℕ) (w : W) → seen (kernel.outb port value w) ≡ (port, value) ∷ seen w

module _ {W : Type 0} (kernel : Kernel W) (minor : ℕ) {seen : W → List (ℕ × ℕ)} {level : W → ℕ → ℕ}
    (serving : Serving kernel minor seen level) where
  pub written :
      (port value : ℕ) (w : W)
      → (w' : W) × (iopioctl kernel minor iop_write (record { port = port; port_value = value }) w
          ≡ some ((0, record { port = port; port_value = value }), w'))
        × (seen w' ≡ (port, value) ∷ seen w)
  unfolding iopioctl
  written port value w =
      let entered = kernel.mutex_enter minor w in
      (
        kernel.mutex_exit minor (kernel.outb port value (kernel.copyin entered).1),
        rw (serving.there w, serving.reads entered) refl,
        serving.exits _
            ∙ (serving.outputs port value _
                ∙ ap (λ l. (port, value) ∷ l)
                    ((serving.copies_in entered).0 ∙ (serving.enters w).0)),
      )

  pub shown :
      (port value : ℕ) (w : W)
      → (w' : W) × (iopioctl kernel minor iop_read (record { port = port; port_value = value }) w
          ≡ some ((0, record { port = port; port_value = level w port % 256 }), w'))
        × (seen w' ≡ seen w)
  unfolding iopioctl
  shown port value w =
      let entered = kernel.mutex_enter minor w in
      let copied = (kernel.copyin entered).1 in
      let got = kernel.inb port copied in
      let same : got.0 ≡ level w port =
        (serving.inputs port copied).0
        ∙ ap (λ f. f port) ((serving.copies_in entered).1 ∙ (serving.enters w).1) in
      (
        kernel.mutex_exit minor (kernel.copyout got.1).1,
        rw (serving.there w, serving.reads entered, serving.writes got.1, same) refl,
        serving.exits _
            ∙ (serving.copies_out got.1
                ∙ ((serving.inputs port copied).1
                    ∙ ((serving.copies_in entered).0 ∙ (serving.enters w).0))),
      )

  -- A process that lacks the privilege cannot open the device for writing, and still writes any byte
  -- to any I/O port: it opens the device for reading, and asks for the write.
  unprivileged-writes :
      (port value : ℕ) (w : W)
      → kernel.lacks_privilege w ≡ true
      → (iopopen kernel minor true true w ≡ kernel.eacces)
        × (iopopen kernel minor false true w ≡ 0)
        × (w' : W) × (iopioctl kernel minor iop_write (record { port = port; port_value = value }) w
            ≡ some ((0, record { port = port; port_value = value }), w'))
        × (seen w' ≡ (port, value) ∷ seen w)
  unfolding iopopen
  unprivileged-writes port value w lacks =
      let (w', asked, sent) = written port value w in
      (rw (serving.there w, lacks) refl, rw (serving.there w) refl, w', asked, sent)
