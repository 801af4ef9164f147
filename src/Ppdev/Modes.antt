-- ===== src/Ppdev/Modes.antt =====
-- The mode of a ppdev device in src/access_ppdev.c: which_mode, set_mode, do_nonblock, negotiate and
-- terminate, and the codes that its system calls return.
pub mod Agreed
use libieee.Port.E1284
use libieee.Port.Mode
use libieee.Port.Transfer
use libieee.Common.{
  Bool, if◌then◌else◌, is_minus_one, meets, nat_of, negsuc, not, pos, suc, truthy, ℕ, ℤ, ◌&&◌, ◌==◌,
  ◌||◌, ◌∩◌, ◌∪◌,
}
use libieee.Port.Clock.{delay, io_poll_delay}
use libieee.Port.Host.{Host, Request}
use libieee.Port.Run.{Run, ask, gets, modify, pure, skip, ◌>>=◌, ◌>>◌}
use libieee.Ppdev.Parport.{addr_flag, data_flag, fast_read, fast_write}
use libieee.Ppdev.Pins.{ask_device}

-- `flags & ~mask`, as a condition.
abbrev pub has_others : ℕ → ℕ → Bool
has_others flags mask = not (flags ∩ mask == flags)

-- M1284_NIBBLE, M1284_BYTE, M1284_COMPAT, M1284_ECPRLE, M1284_ECPSWE or M1284_EPPSWE.
abbrev pub is_same_mode : ℕ → Bool
is_same_mode mode =
    mode == Mode.nibble
    || mode == Mode.byte
    || mode == Mode.compat
    || mode == Mode.ecprle
    || mode == Mode.ecpswe
    || mode == Mode.eppswe

-- The mode's number for the device, or an error.
unfoldable pub which_mode : ℕ → ℕ → ℤ
which_mode mode flags =
    if meets mode (Mode.flag_deviceid ∪ Mode.flag_ext_link) || is_same_mode mode
    then pos mode
    else if mode == Mode.ecp
    then (if meets flags Transfer.rle
        then pos Mode.ecprle
        else if meets flags Transfer.swe
        then pos Mode.ecpswe
        else if has_others flags Transfer.nonblock
        then E1284.notimpl
        else pos Mode.ecp)
    else if mode == Mode.epp
    then (if meets flags Transfer.swe
        then pos Mode.eppswe
        else if has_others flags (Transfer.fastepp ∪ Transfer.nonblock)
        then E1284.notimpl
        else pos Mode.epp)
    else E1284.notimpl

-- The flags that set_mode asks the device for: the variable `f`.
unfoldable pub wanted_flags : ℕ → ℕ → ℕ
wanted_flags mode flags =
    if mode == Mode.epp && meets flags Transfer.fastepp then fast_read ∪ fast_write else 0

module _ {W : Type 0} (host : Host W) where
  unfoldable pub translate_error_code : ℤ → ℤ
  translate_error_code (pos n) = pos n
  translate_error_code (negsuc n) = if suc n == host.eagain then E1284.timedout else E1284.sys

  -- `ret` after the request for mode `m`, if there is one.
  unfoldable pub change_mode : ℕ → Run W ℤ
  unfolding ask_device translate_error_code
  change_mode m = do
    current ← gets (λ p. p.current_mode)
    if current == m then pure E1284.ok else do
      (r, _) ← ask_device host (Request.ppsetmode m)
      let ret = translate_error_code r
      if truthy ret then skip else modify (λ p. record p { current_mode = m })
      pure ret

  -- `ret` after the request for flags `f`, if there is one.
  unfoldable pub change_flags : ℕ → ℕ → ℤ → Run W ℤ
  unfolding ask_device translate_error_code
  change_flags mode f ret = do
    current ← gets (λ p. p.access_priv.current_flags)
    if not (current == f) && mode == Mode.epp
        then (do
          (r, _) ← ask_device host (Request.ppsetflags f)
          let ret = translate_error_code r
          if truthy ret
              then skip
              else modify
                  (λ p. record p { access_priv = record (p.access_priv) { current_flags = f } })
          pure ret)
        else pure ret

  unfoldable pub set_mode : ℕ → ℕ → ℕ → Run W ℤ
  unfolding which_mode wanted_flags change_mode change_flags
  set_mode mode flags addr = elim (which_mode mode flags) [
    | negsuc n ↦ pure (negsuc n)
    | pos m ↦ do
      ret ← change_mode (m ∪ (if addr == 0 then data_flag else addr_flag))
      change_flags mode (wanted_flags mode flags) ret
  ]

  -- One change of the file's flags, by a function on them.
  unfoldable pub change_fl : (ℕ → ℕ) → Run W ℤ
  change_fl change = do
    fd ← gets (λ p. p.fd)
    f ← ask (host.getfl fd)
    if is_minus_one f then pure (negsuc 0) else do
      r ← ask (host.setfl fd (change (nat_of f)))
      if truthy r then pure (negsuc 0) else pure (pos 0)

  unfoldable pub do_nonblock : ℕ → Run W ℤ
  unfolding change_fl
  do_nonblock flags = do
    nonblock ← gets (λ p. p.access_priv.nonblock)
    if meets flags Transfer.nonblock && nonblock == 0
        then change_fl (λ f. f ∪ host.o_nonblock)
        else if not (meets flags Transfer.nonblock) && not (nonblock == 0)
        then change_fl (λ f. f ∩ host.o_nonblock)
        else pure (pos 0)

  unfoldable pub negotiate : ℕ → Run W ℤ
  unfolding which_mode ask_device translate_error_code
  negotiate mode = do
    (ret, _) ← ask_device host (Request.ppnegot (which_mode mode 0))
    if truthy ret
        then (do
          errno ← ask (λ w. (host.errno w, w))
          if errno == host.eio
              then pure E1284.negfailed
              else if errno == host.enxio
              then pure E1284.rejected
              else pure (translate_error_code ret))
        else do modify (λ p. record p { current_mode = mode }); pure (translate_error_code ret)

  unfoldable pub terminate : Run W (Unit {0})
  unfolding ask_device delay
  terminate = do
    (ret, _) ← ask_device host (Request.ppnegot (pos Mode.compat))
    if truthy ret then skip else modify (λ p. record p { current_mode = Mode.compat })
    delay host.clock io_poll_delay
