-- ===== src/Python/Calls/Raised.antt =====
-- Which exception a Python program sees, and which result of the library it stands for.
use libieee.Port.E1284
use libieee.Common.{
  List, Option, [], arith, false, negsuc, none, pos, refl, some, suc, zero, ℕ, ℤ, ◌*◌, ◌+◌, ◌<◌,
  ◌^◌, ◌≡◌,
}
use libieee.Interface.{ieee1284_claim, ieee1284_close, ieee1284_negotiate}
use libieee.Interface.Guards.{unclaimed-no_transfer}
use libieee.Port.Machine.{Machine}
use libieee.Port.Run.{Outcome, done}
use libieee.Python.{
  Exception, Reply, error, handle_error, int_object, invalid_port, no_id, no_memory, not_available,
  not_implemented, not_initialised, os_error, parsed, rejected, replies, timed_out, type_error,
  unknown, went_wrong,
}
use libieee.Python.Calls.{Call, Surroundings, perform}
use libieee.Python.Methods.{parport_claim, parport_close, parport_negotiate, parport_open}
use libieee.Python.Transfers.{Read, Write, library_read, library_write, parport_read, parport_write}
use libieee.State.{ieee1284_open}

-- The result that an exception stands for; that of an unknown error and of wrong arguments is 1.
abbrev pub code_of : Exception → ℤ
code_of no_memory = E1284.nomem
code_of (os_error errno) = E1284.sys
code_of (error not_implemented) = E1284.notimpl
code_of (error not_available) = E1284.notavail
code_of (error timed_out) = E1284.timedout
code_of (error rejected) = E1284.rejected
code_of (error went_wrong) = E1284.negfailed
code_of (error not_initialised) = E1284.init
code_of (error no_id) = E1284.noid
code_of (error invalid_port) = E1284.invalidport
code_of (error unknown) = pos 1
code_of type_error = pos 1

-- The exception that stands for an error of the library.
exception_for : ℕ → ℕ → Exception
exception_for errno n = elim (handle_error errno (negsuc n)) [ none ↦ type_error | some e ↦ e ]

handle_error-code :
    (errno n : ℕ)
    → n < 10
    → (handle_error errno (negsuc n) ≡ some (exception_for errno n))
      × (code_of (exception_for errno n) ≡ negsuc n)
unfolding exception_for handle_error
handle_error-code errno zero h = (refl, refl)
handle_error-code errno (suc zero) h = (refl, refl)
handle_error-code errno (suc (suc zero)) h = (refl, refl)
handle_error-code errno (suc (suc (suc zero))) h = (refl, refl)
handle_error-code errno (suc (suc (suc (suc zero)))) h = (refl, refl)
handle_error-code errno (suc (suc (suc (suc (suc zero))))) h = (refl, refl)
handle_error-code errno (suc (suc (suc (suc (suc (suc zero)))))) h = (refl, refl)
handle_error-code errno (suc (suc (suc (suc (suc (suc (suc zero))))))) h = (refl, refl)
handle_error-code errno (suc (suc (suc (suc (suc (suc (suc (suc zero)))))))) h = (refl, refl)
handle_error-code errno (suc (suc (suc (suc (suc (suc (suc (suc (suc zero))))))))) h = (refl, refl)
handle_error-code errno (suc (suc (suc (suc (suc (suc (suc (suc (suc (suc n)))))))))) h =
    absurd (omega arith)

module _ {W F : Type 0} (around : Surroundings W F) where
  -- Run `r` has raised an exception that stands for the error, and left machine `t`.
  abbrev Raises : Machine W → ℕ → Outcome W (Reply F) → Type 0
  Raises t n r =
      (e : Exception) × (r ≡ done (record { object = none; pending = some e }) t)
      × (code_of e ≡ negsuc n)

  finish-Raises :
      (n : ℕ)
      → n < 10
      → (t : Machine W)
      → Raises t n (
          done
            (record { object = none; pending = handle_error (around.errno t.world) (negsuc n) })
            t)
  finish-Raises n h t =
      let (raised, code) = handle_error-code (around.errno t.world) n h in
      (exception_for (around.errno t.world) n, rw raised refl, code)

  -- A call for which the library returns error `n`, and leaves machine `t`.
  pub data Fails (n : ℕ) (s t : Machine W) : Call F → Type 0 where
    read_fails :
        (x : Read) (len flags : ℕ) (stored : List ℕ)
        → library_read around.methods x flags (len + 2 ^ 32 * around.left.upper_half) s
          ≡ done (negsuc n, stored) t
        → Fails n s t (Call.read x (parsed (len, flags)))
    negotiate_fails :
        (mode : ℕ)
        → ieee1284_negotiate around.methods mode s ≡ done (negsuc n) t
        → Fails n s t (Call.negotiate (parsed mode))
    claim_fails : ieee1284_claim around.methods s ≡ done (negsuc n) t → Fails n s t Call.claim
    close_fails : ieee1284_close around.methods s ≡ done (negsuc n) t → Fails n s t Call.close
    open_fails :
        (flags : ℕ) (caps : Option ℕ)
        → ieee1284_open around.methods around.capabilities around.disallow_ppdev flags (some 0) s
          ≡ done (negsuc n, caps) t
        → Fails n s t (Call.open_port (parsed flags))

  -- The ten errors of the library reach a Python program as exceptions that tell them apart, from an
  -- open, a close, a claim, a negotiation and a block read; the port and the world are as the
  -- library has left them.
  pub Fails-raises :
      (n : ℕ) {s t : Machine W} (c : Call F)
      → n < 10
      → Fails n s t c
      → (e : Exception) × (perform around c s ≡ done (record { object = none; pending = some e }) t)
        × (code_of e ≡ negsuc n)
  unfolding perform parport_read parport_negotiate parport_claim parport_close parport_open
  Fails-raises n {t} c h (read_fails x len flags stored e) = rw e (finish-Raises n h t)
  Fails-raises n {t} c h (negotiate_fails mode e) = rw e (finish-Raises n h t)
  Fails-raises n {t} c h (claim_fails e) = rw e (finish-Raises n h t)
  Fails-raises n {t} c h (close_fails e) = rw e (finish-Raises n h t)
  Fails-raises n {t} c h (open_fails flags caps e) = rw e (finish-Raises n h t)

  read-unclaimed :
      (r : Read) (flags len : ℕ) (s : Machine W)
      → s.port.claimed ≡ false
      → library_read around.methods r flags len s ≡ done (E1284.invalidport, []) s
  unfolding library_read
  read-unclaimed r flags len s unclaimed =
      let refused = unclaimed-no_transfer around.methods s unclaimed flags len [] in
      elim r as (λ x. library_read around.methods x flags len s ≡ done (E1284.invalidport, []) s) [
        | Read.nibble_read ↦ refused.0
        | Read.byte_read ↦ refused.2
        | Read.epp_read_data ↦ refused.3
        | Read.epp_read_addr ↦ refused.5
        | Read.ecp_read_data ↦ refused.7
        | Read.ecp_read_addr ↦ refused.9
      ]

  write-unclaimed :
      (w : Write) (flags : ℕ) (buffer : List ℕ) (s : Machine W)
      → s.port.claimed ≡ false
      → library_write around.methods w flags buffer s ≡ done E1284.invalidport s
  unfolding library_write
  write-unclaimed w flags buffer s unclaimed =
      let refused = unclaimed-no_transfer around.methods s unclaimed flags 0 buffer in
      elim w as (λ x. library_write around.methods x flags buffer s ≡ done E1284.invalidport s) [
        | Write.compat_write ↦ refused.1
        | Write.epp_write_data ↦ refused.4
        | Write.epp_write_addr ↦ refused.6
        | Write.ecp_write_data ↦ refused.8
        | Write.ecp_write_addr ↦ refused.10
      ]

  -- On a port that is not claimed, a block read raises the exception for an invalid port, and a block
  -- write does not: it gives back the number of the error, as if it had been a count. Nothing of the
  -- port or the world is changed.
  pub unclaimed-transfers :
      (s : Machine W) (n flags : ℕ) (buffer : List ℕ) (r : Read) (w : Write)
      → s.port.claimed ≡ false
      → (perform around (Call.read r (parsed (n, flags))) s
          ≡ done (record { object = none; pending = some (error invalid_port) }) s)
        × (perform around (Call.write w (parsed (buffer, flags))) s
            ≡ done (replies (int_object E1284.invalidport)) s)
  unfolding perform parport_read parport_write
  unclaimed-transfers s n flags buffer r w unclaimed = (
    rw (read-unclaimed r flags (n + 2 ^ 32 * around.left.upper_half) s unclaimed) refl,
    rw (write-unclaimed w flags buffer s unclaimed) refl,
  )
