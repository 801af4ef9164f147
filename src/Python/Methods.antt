-- ===== src/Python/Methods.antt =====
-- The methods of a Parport object in src/ieee1284module.c that are no block transfers. The arguments
-- are what PyArg_ParseTuple makes of them.
use libieee.Common.{Bool, nat_of, pos, some, take, ℕ, ℤ, ◌%◌, ◌*◌, ◌+◌}
use libieee.DeviceId.{Reader, ieee1284_get_deviceid}
use libieee.Interface.{
  ieee1284_claim, ieee1284_clear_irq, ieee1284_close, ieee1284_data_dir, ieee1284_ecp_fwd_to_rev,
  ieee1284_ecp_rev_to_fwd, ieee1284_frob_control, ieee1284_get_irq_fd, ieee1284_negotiate,
  ieee1284_read_control, ieee1284_read_data, ieee1284_read_status, ieee1284_release,
  ieee1284_terminate, ieee1284_unref, ieee1284_wait_status, ieee1284_write_control,
  ieee1284_write_data,
}
use libieee.Interface.Transfers.{ieee1284_set_timeout}
use libieee.Port.Clock.{TimeVal}
use libieee.Port.Machine.{Table, Text}
use libieee.Port.Methods.{Methods}
use libieee.Port.Run.{Run, done, pure, skip, ◌>>=◌, ◌>>◌}
use libieee.Python.{
  Floats, Leftover, Object, Parsed, Reply, bytes_object, float_object, from_zero, int_object,
  none_object, parse_failed, parsed, refused, replies, unless_negative,
}
use libieee.State.{ieee1284_open}

module _ {F : Type 0} where
  -- `timeout.tv_sec = (int) f`, and the rest in microseconds.
  unfoldable pub timeval_of : Floats F → F → TimeVal
  timeval_of floats f = record {
    tv_sec = floats.to_int f;
    tv_usec = floats.to_int (floats.times (floats.minus f (floats.to_int f)) 1000000);
  }

module _ {W F : Type 0} (methods : Table → Methods W) (errno : W → ℕ) where
  -- The end of a method that gives back an object unless there is an error.
  finish : ℤ → Object F → Run W (Reply F)
  unfolding unless_negative
  finish r o s = done (unless_negative (errno s.world) r o) s

  -- A method that takes arguments.
  abbrev with_args : {A : Type 0} → Parsed A → (A → Run W (Reply F)) → Run W (Reply F)
  with_args (parsed a) run = run a
  with_args (refused e) run = pure (parse_failed e)

  unfoldable pub parport_open :
      (capabilities : ℕ) (disallow_ppdev : Bool) → Parsed ℕ → Run W (Reply F)
  unfolding finish ieee1284_open
  parport_open capabilities disallow_ppdev args = with_args args λ flags. do
    (r, caps) ← ieee1284_open methods capabilities disallow_ppdev flags (some 0)
    finish r (int_object (pos (from_zero caps)))

  unfoldable pub parport_get_deviceid :
      (reader : Reader W) (capabilities : ℕ) (disallow_ppdev : Bool) (name : Text)
      → Leftover
      → Parsed (ℤ × ℕ)
      → Run W (Reply F)
  unfolding finish ieee1284_get_deviceid
  parport_get_deviceid reader capabilities disallow_ppdev name left args =
      with_args args λ (daisy, flags). do
        (r, buffer) ←
            ieee1284_get_deviceid methods reader capabilities disallow_ppdev name daisy flags 2000
              (left.memory 2000)
        finish r (bytes_object (take (nat_of r) buffer))

  unfoldable pub parport_get_irq_fd : Run W (Reply F)
  unfolding finish ieee1284_get_irq_fd
  parport_get_irq_fd = do fd ← ieee1284_get_irq_fd methods; finish fd (int_object fd)

  -- The result of the call goes to `fd`, and `r` is looked at.
  unfoldable pub parport_clear_irq : Leftover → Run W (Reply F)
  unfolding finish ieee1284_clear_irq
  parport_clear_irq left = do
    (_, count) ← ieee1284_clear_irq methods
    finish left.result (int_object (pos (from_zero count)))

  unfoldable pub parport_close : Run W (Reply F)
  unfolding finish ieee1284_close
  parport_close = do r ← ieee1284_close methods; finish r none_object

  unfoldable pub parport_claim : Run W (Reply F)
  unfolding finish ieee1284_claim
  parport_claim = do r ← ieee1284_claim methods; finish r none_object

  unfoldable pub parport_release : Run W (Reply F)
  unfolding ieee1284_release
  parport_release = do ieee1284_release methods; pure (replies none_object)

  unfoldable pub parport_read_data : Run W (Reply F)
  unfolding finish ieee1284_read_data
  parport_read_data = do r ← ieee1284_read_data methods; finish r (int_object r)

  -- The argument is an int, and its low byte is written.
  unfoldable pub parport_write_data : Parsed ℕ → Run W (Reply F)
  unfolding ieee1284_write_data
  parport_write_data args =
      with_args args λ byte. do ieee1284_write_data methods (byte % 256); pure (replies none_object)

  unfoldable pub parport_data_dir : Parsed ℕ → Run W (Reply F)
  unfolding finish ieee1284_data_dir
  parport_data_dir args =
      with_args args λ reverse. do r ← ieee1284_data_dir methods reverse; finish r none_object

  unfoldable pub parport_read_status : Run W (Reply F)
  unfolding finish ieee1284_read_status
  parport_read_status = do r ← ieee1284_read_status methods; finish r (int_object r)

  unfoldable pub parport_wait_status : Floats F → Parsed (ℕ × ℕ × F) → Run W (Reply F)
  unfolding finish timeval_of ieee1284_wait_status
  parport_wait_status floats args = with_args args λ (mask, val, f). do
    r ← ieee1284_wait_status methods (mask % 256) (val % 256) (timeval_of floats f)
    finish r none_object

  unfoldable pub parport_read_control : Run W (Reply F)
  unfolding finish ieee1284_read_control
  parport_read_control = do r ← ieee1284_read_control methods; finish r (int_object r)

  unfoldable pub parport_write_control : Parsed ℕ → Run W (Reply F)
  unfolding ieee1284_write_control
  parport_write_control args =
      with_args args
        λ byte. do ieee1284_write_control methods (byte % 256); pure (replies none_object)

  unfoldable pub parport_frob_control : Parsed (ℕ × ℕ) → Run W (Reply F)
  unfolding ieee1284_frob_control
  parport_frob_control args = with_args args λ (mask, val). do
    ieee1284_frob_control methods (mask % 256) (val % 256)
    pure (replies none_object)

  unfoldable pub parport_negotiate : Parsed ℕ → Run W (Reply F)
  unfolding finish ieee1284_negotiate
  parport_negotiate args =
      with_args args λ mode. do r ← ieee1284_negotiate methods mode; finish r none_object

  unfoldable pub parport_terminate : Run W (Reply F)
  unfolding ieee1284_terminate
  parport_terminate = do ieee1284_terminate methods; pure (replies none_object)

  unfoldable pub parport_ecp_fwd_to_rev : Run W (Reply F)
  unfolding finish ieee1284_ecp_fwd_to_rev
  parport_ecp_fwd_to_rev = do r ← ieee1284_ecp_fwd_to_rev methods; finish r none_object

  unfoldable pub parport_ecp_rev_to_fwd : Run W (Reply F)
  unfolding finish ieee1284_ecp_rev_to_fwd
  parport_ecp_rev_to_fwd = do r ← ieee1284_ecp_rev_to_fwd methods; finish r none_object

  -- `oldto->tv_sec + oldto->tv_usec * 1000000`
  unfoldable pub parport_set_timeout : Floats F → Parsed F → Run W (Reply F)
  unfolding timeval_of ieee1284_set_timeout
  parport_set_timeout floats args = with_args args λ f. do
    old ← ieee1284_set_timeout methods (timeval_of floats f)
    pure (replies (float_object (floats.of_int (old.tv_sec + old.tv_usec * 1000000))))

module _ {W : Type 0} (methods : Table → Methods W) where
  -- Parport_dealloc, of an object that has a port: the reference is given back.
  unfoldable pub parport_dealloc : Run W (Unit {0})
  unfolding ieee1284_unref
  parport_dealloc = do ieee1284_unref methods; skip
