-- ===== src/Python/Calls/Replies.antt =====
-- What the calls of a Python program give back.
use libieee.Common.{Bool, Option, arith, false, negsuc, none, not, pos, refl, some, true, ℕ, ℤ, ◌≡◌}
use libieee.Port.Machine.{Machine}
use libieee.Port.Run.{Outcome, Run, and_then, crash, done, out_of_rounds}
use libieee.Python.{Object, Reply, handle_error, parsed, refused, unless_negative}
use libieee.Python.Calls.{Call, Surroundings, perform}
use libieee.Python.Methods.{
  parport_claim, parport_clear_irq, parport_close, parport_data_dir, parport_ecp_fwd_to_rev,
  parport_ecp_rev_to_fwd, parport_frob_control, parport_get_deviceid, parport_get_irq_fd,
  parport_negotiate, parport_open, parport_read_control, parport_read_data, parport_read_status,
  parport_release, parport_set_timeout, parport_terminate, parport_wait_status,
  parport_write_control, parport_write_data,
}
use libieee.Python.Transfers.{parport_read, parport_write}

abbrev pub is_some : {A : Type 0} → Option A → Bool
is_some none = false
is_some (some a) = true

handle_error-raises : (errno n : ℕ) → is_some (handle_error errno (negsuc n)) ≡ true
unfolding handle_error
handle_error-raises errno n = ground arith

module _ {F : Type 0} where
  -- An object is given back exactly if no exception is pending, which is what Python asks of a
  -- function.
  abbrev pub KeepsConvention : Reply F → Type 0
  KeepsConvention r = is_some r.object ≡ not (is_some r.pending)

  unless_negative-KeepsConvention :
      (errno : ℕ) (r : ℤ) (o : Object F) → KeepsConvention (unless_negative errno r o)
  unfolding unless_negative
  unless_negative-KeepsConvention errno (pos n) o = refl
  unless_negative-KeepsConvention errno (negsuc n) o = rw (handle_error-raises errno n) refl

-- What a run gives back, where it comes back.
data Gives {W A : Type 0} (P : A → Type 0) : Outcome W A → Type 0 where
  gives : {a : A} {s : Machine W} → P a → Gives P (done a s)
  crashes : Gives P crash
  runs_out : Gives P out_of_rounds

after :
    {W A B : Type 0} {P : B → Type 0} (r : Outcome W A) (k : A → Run W B)
    → ((a : A) (s : Machine W) → Gives P (k a s))
    → Gives P (and_then r k)
after (done a s) k h = h a s
after crash k h = crashes
after out_of_rounds k h = runs_out

given : {W A : Type 0} {P : A → Type 0} {a : A} {s : Machine W} → Gives P (done a s) → P a
given (gives p) = p

known :
    {W A : Type 0} {P : A → Type 0} {a : A} {s : Machine W} (r : Outcome W A)
    → Gives P r
    → r ≡ done a s
    → P a
known r h e = given (rw e at h)

module _ {W F : Type 0} (around : Surroundings W F) where
  perform-Gives : (c : Call F) (s : Machine W) → Gives KeepsConvention (perform around c s)
  unfolding perform parport_get_deviceid parport_open parport_negotiate parport_data_dir
      parport_write_data parport_write_control parport_close parport_get_irq_fd parport_clear_irq
      parport_claim parport_release parport_read_data parport_read_status parport_read_control
      parport_terminate parport_ecp_fwd_to_rev parport_ecp_rev_to_fwd parport_wait_status
      parport_frob_control parport_set_timeout parport_read parport_write
  perform-Gives (Call.get_deviceid (parsed (daisy, flags))) s =
      after _ _ λ a t. gives (unless_negative-KeepsConvention _ _ _)
  perform-Gives (Call.get_deviceid (refused e)) s = gives refl
  perform-Gives (Call.open_port (parsed flags)) s =
      after _ _ λ a t. gives (unless_negative-KeepsConvention _ _ _)
  perform-Gives (Call.open_port (refused e)) s = gives refl
  perform-Gives (Call.negotiate (parsed mode)) s =
      after _ _ λ a t. gives (unless_negative-KeepsConvention _ _ _)
  perform-Gives (Call.negotiate (refused e)) s = gives refl
  perform-Gives (Call.data_dir (parsed reverse)) s =
      after _ _ λ a t. gives (unless_negative-KeepsConvention _ _ _)
  perform-Gives (Call.data_dir (refused e)) s = gives refl
  perform-Gives (Call.write_data (parsed byte)) s = after _ _ λ a t. gives refl
  perform-Gives (Call.write_data (refused e)) s = gives refl
  perform-Gives (Call.write_control (parsed byte)) s = after _ _ λ a t. gives refl
  perform-Gives (Call.write_control (refused e)) s = gives refl
  perform-Gives Call.close s = after _ _ λ a t. gives (unless_negative-KeepsConvention _ _ _)
  perform-Gives Call.get_irq_fd s = after _ _ λ a t. gives (unless_negative-KeepsConvention _ _ _)
  perform-Gives Call.clear_irq s = after _ _ λ a t. gives (unless_negative-KeepsConvention _ _ _)
  perform-Gives Call.claim s = after _ _ λ a t. gives (unless_negative-KeepsConvention _ _ _)
  perform-Gives Call.release s = after _ _ λ a t. gives refl
  perform-Gives Call.read_data s = after _ _ λ a t. gives (unless_negative-KeepsConvention _ _ _)
  perform-Gives Call.read_status s = after _ _ λ a t. gives (unless_negative-KeepsConvention _ _ _)
  perform-Gives Call.read_control s = after _ _ λ a t. gives (unless_negative-KeepsConvention _ _ _)
  perform-Gives Call.terminate s = after _ _ λ a t. gives refl
  perform-Gives Call.ecp_fwd_to_rev s =
      after _ _ λ a t. gives (unless_negative-KeepsConvention _ _ _)
  perform-Gives Call.ecp_rev_to_fwd s =
      after _ _ λ a t. gives (unless_negative-KeepsConvention _ _ _)
  perform-Gives (Call.wait_status (parsed (mask, val, f))) s =
      after _ _ λ a t. gives (unless_negative-KeepsConvention _ _ _)
  perform-Gives (Call.wait_status (refused e)) s = gives refl
  perform-Gives (Call.frob_control (parsed (mask, val))) s = after _ _ λ a t. gives refl
  perform-Gives (Call.frob_control (refused e)) s = gives refl
  perform-Gives (Call.set_timeout (parsed f)) s = after _ _ λ a t. gives refl
  perform-Gives (Call.set_timeout (refused e)) s = gives refl
  perform-Gives (Call.read x (parsed (n, flags))) s =
      after _ _ λ a t. gives (unless_negative-KeepsConvention _ _ _)
  perform-Gives (Call.read x (refused e)) s = gives refl
  perform-Gives (Call.write x (parsed (buffer, flags))) s = after _ _ λ a t. gives refl
  perform-Gives (Call.write x (refused e)) s = gives refl

  -- A call that comes back keeps Python's convention, whatever the port, the tables and the arguments
  -- are, and whatever stands in variables that are not written: an object is given back exactly if
  -- no exception is pending.
  pub perform-KeepsConvention :
      (c : Call F) (s t : Machine W) (reply : Reply F)
      → perform around c s ≡ done reply t
      → KeepsConvention reply
  perform-KeepsConvention c s t reply e = known _ (perform-Gives c s) e
