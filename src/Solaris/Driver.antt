-- ===== src/Solaris/Driver.antt =====
-- solaris_io/iop.c. The functions of the kernel are a parameter; a unit of the driver is given by its
-- instance, which is the minor number of its device. The lines that the driver prints are left out.
pub mod Units
pub mod Ports
use libieee.Common.{
  Bool, Option, false, if◌then◌else◌, none, not, some, true, truthy, ℕ, ℤ, ◌%◌, ◌&&◌, ◌==◌, ◌||◌,
}
use libieee.Solaris.{IopBuf, iop_read, iop_write}

-- What the driver asks of the kernel. `get_soft_state` says whether the pointer is not NULL,
-- `lacks_privilege` that drv_priv does not return 0, and the others that a call succeeds or, for
-- copies, that it faults. The numbers are those of sys/errno.h.
pub record Kernel (K : Type 0) : Type 0 where
  pub soft_state_init : K → ℤ × K
  pub soft_state_fini : K → K
  pub mod_install : K → ℤ × K
  pub mod_remove : K → ℤ × K
  pub soft_state_zalloc : ℕ → K → Bool × K
  pub get_soft_state : ℕ → K → Bool
  pub soft_state_free : ℕ → K → K
  pub set_driver_private : ℕ → K → K
  pub mutex_init : ℕ → K → K
  pub mutex_destroy : ℕ → K → K
  pub mutex_enter : ℕ → K → K
  pub mutex_exit : ℕ → K → K
  pub create_minor_node : ℕ → K → Bool × K
  pub remove_minor_node : ℕ → K → K
  pub report_dev : ℕ → K → K
  pub lacks_privilege : K → Bool
  pub copyin : K → Bool × K
  pub copyout : K → Bool × K
  pub inb : ℕ → K → ℕ × K
  pub outb : ℕ → ℕ → K → K
  pub efault : ℕ
  pub einval : ℕ
  pub enxio : ℕ
  pub eacces : ℕ

module _ {K : Type 0} (kernel : Kernel K) where
  unfoldable pub iop_init : K → ℤ × K
  iop_init k =
      let (error, k) = kernel.soft_state_init k in
      if truthy error
      then (error, k)
      else let (error, k) = kernel.mod_install k in
        if truthy error then (error, kernel.soft_state_fini k) else (error, k)

  unfoldable pub iop_fini : K → ℤ × K
  iop_fini k =
      let (status, k) = kernel.mod_remove k in
      if truthy status then (status, k) else (status, kernel.soft_state_fini k)

  -- `none` is a use of the null pointer; true is DDI_SUCCESS. `attaches` says that the command is
  -- DDI_ATTACH.
  unfoldable pub iopattach : (attaches : Bool) → ℕ → K → Option (Bool × K)
  iopattach attaches instance_of k =
      if not attaches
      then some (false, k)
      else let (allocated, k) = kernel.soft_state_zalloc instance_of k in
        if not allocated
        then some (false, k)
        else let k = kernel.set_driver_private instance_of k in
          if not (kernel.get_soft_state instance_of k)
          then none
          else let (created, k) =
              kernel.create_minor_node instance_of (kernel.mutex_init instance_of k) in
            if not created
            then some
                (false, kernel.soft_state_free instance_of (kernel.mutex_destroy instance_of k))
            else some (true, kernel.report_dev instance_of k)

  unfoldable pub iopdetach : (detaches : Bool) → ℕ → K → Option (Bool × K)
  iopdetach detaches instance_of k =
      if not detaches
      then some (false, k)
      else if not (kernel.get_soft_state instance_of k)
      then none
      else some (
        true,
        kernel.soft_state_free instance_of
            (kernel.mutex_destroy instance_of (kernel.remove_minor_node instance_of k)),
      )

  -- The result is an error of sys/errno.h, or 0.
  unfoldable pub iopopen : (minor : ℕ) (to_write is_chr : Bool) → K → ℕ
  iopopen minor to_write is_chr k =
      if not (kernel.get_soft_state minor k)
      then kernel.enxio
      else if not is_chr
      then kernel.einval
      else if to_write && kernel.lacks_privilege k
      then kernel.eacces
      else 0

  unfoldable pub iopclose : (minor : ℕ) → K → ℕ
  iopclose minor k = 0

  -- The result, and what the buffer at `arg` holds afterwards.
  unfoldable pub iopioctl : (minor cmd : ℕ) → IopBuf → K → Option ((ℕ × IopBuf) × K)
  iopioctl minor cmd buf k =
      if not (cmd == iop_read || cmd == iop_write)
      then some ((kernel.einval, buf), k)
      else if not (kernel.get_soft_state minor k)
      then none
      else let (fault, k) = kernel.copyin (kernel.mutex_enter minor k) in
        if fault
        then some ((kernel.efault, buf), kernel.mutex_exit minor k)
        else if cmd == iop_read
        then (let (value, k) = kernel.inb buf.port k in
            let (fault, k) = kernel.copyout k in
            some (
              (0, if fault then buf else record buf { port_value = value % 256 }),
              kernel.mutex_exit minor k,
            ))
        else some ((0, buf), kernel.mutex_exit minor (kernel.outb buf.port buf.port_value k))
