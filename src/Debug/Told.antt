-- ===== src/Debug/Told.antt =====
-- What a run of src/debug.c tells of the lines, and when it tells nothing.
-- The calls of the three functions, with the time.
use libieee.Common.{
  Bool, Bool-cases, List, Option, [], ap, append-nil, append_assoc, ap₂, arith, complement, false,
  if◌then◌else◌, inl, inr, refl, sym, true, ℕ, ◌&&◌, ◌++◌, ◌==◌, ◌∙◌, ◌∩◌, ◌∷◌, ◌≡◌, ◌⊖◌,
}
use libieee.Debug.{
  Debug, Enabled, Surroundings, control_line, debug_display_control, debug_display_status,
  debug_frob_control, debugprintf, decide, disabled, enabled, initial, is_disabled, status_line,
  timeofday, undecided,
}
use libieee.Port.Machine.{Text}

pub data Call : Type 0 where
  status : (clock : Option (Text × Text)) (st : ℕ) → Call
  control : (clock : Option (Text × Text)) (ct : ℕ) → Call
  frob : (clock : Option (Text × Text)) (mask val : ℕ) → Call

-- The lines for calls, where debugging is asked for: one for each status that differs from the last
-- status, and for each value of the control lines that differs from their last value.
abbrev unless_same : ℕ → ℕ → Text → List Text → List Text
unless_same last v line lines = if last == v then lines else line ∷ lines

unfoldable pub told : (last_status soft_ctr : ℕ) → List Call → List Text
unfolding timeofday
told last ct [] = []
told last ct (status clock st ∷ calls) =
    unless_same last st (status_line (timeofday clock) st) (told st ct calls)
told last ct (control clock new ∷ calls) =
    unless_same ct new (control_line (timeofday clock) new) (told last new calls)
told last ct (frob clock mask val ∷ calls) =
    let new = (ct ∩ complement mask) ⊖ val in
    unless_same ct new (control_line (timeofday clock) new) (told last new calls)

-- The values that the calls are given, where they return one.
unfoldable pub given : List Call → List ℕ
given [] = []
given (status clock st ∷ calls) = st ∷ given calls
given (control clock ct ∷ calls) = ct ∷ given calls
given (frob clock mask val ∷ calls) = given calls

module _ (around : Surroundings) where
  -- The calls one after the other, and what they return.
  pub run_calls : List Call → Debug → List ℕ × Debug
  unfolding debug_display_status debug_display_control debug_frob_control
  run_calls [] d = ([], d)
  run_calls (status clock st ∷ calls) d =
      let (v, e) = debug_display_status around clock st d in
      let (vs, f) = run_calls calls e in (v ∷ vs, f)
  run_calls (control clock ct ∷ calls) d =
      let (v, e) = debug_display_control around clock ct d in
      let (vs, f) = run_calls calls e in (v ∷ vs, f)
  run_calls (frob clock mask val ∷ calls) d =
      run_calls calls (debug_frob_control around clock mask val d)

  -- Whether nothing will be printed.
  abbrev is_quiet : Debug → Bool
  is_quiet d = is_disabled (decide around d.debugging_enabled)

  is_disabled-decide :
      (now : Enabled) → is_disabled now ≡ true → is_disabled (decide around now) ≡ true
  is_disabled-decide undecided h = ground (arith, h)
  is_disabled-decide disabled h = refl
  is_disabled-decide enabled h = ground (arith, h)

  decide-decide : (now : Enabled) → decide around (decide around now) ≡ decide around now
  decide-decide undecided = ground arith
  decide-decide disabled = refl
  decide-decide enabled = refl

  -- What a display does, from `d` on: it prints `line` unless the value was the last one, and keeps
  -- these values of the two static variables.
  record Shown (same : Bool) (line : Text) (last ct : ℕ) (d e : Debug) : Type 0 where
    quiet : is_quiet e ≡ is_quiet d
    silent : is_quiet d ≡ true → e.stderr ≡ d.stderr
    last_kept : is_quiet d ≡ false → e.last_status ≡ last
    ct_kept : is_quiet d ≡ false → e.soft_ctr ≡ ct
    added : is_quiet d ≡ false → e.stderr ≡ (if same then d.stderr else d.stderr ++ (line ∷ []))

  display_status-Shown :
      (clock : Option (Text × Text)) (st : ℕ) (d : Debug)
      → Shown
          (d.last_status == st)
          (status_line (timeofday clock) st)
          st
          d.soft_ctr
          d
          (debug_display_status around clock st d).1
  unfolding debug_display_status debugprintf
  display_status-Shown clock st d =
      let h = is_disabled-decide d.debugging_enabled in
      let i = decide-decide d.debugging_enabled in
      record {
        quiet = ground (arith, h, i);
        silent = ground (arith, h, i);
        last_kept = ground (arith, h, i);
        ct_kept = ground (arith, h, i);
        added = ground (arith, h, i);
      }

  display_control-Shown :
      (clock : Option (Text × Text)) (ct : ℕ) (d : Debug)
      → Shown
          (d.soft_ctr == ct)
          (control_line (timeofday clock) ct)
          d.last_status
          ct
          d
          (debug_display_control around clock ct d).1
  unfolding debug_display_control debugprintf
  display_control-Shown clock ct d =
      let h = is_disabled-decide d.debugging_enabled in
      let i = decide-decide d.debugging_enabled in
      record {
        quiet = ground (arith, h, i);
        silent = ground (arith, h, i);
        last_kept = ground (arith, h, i);
        ct_kept = ground (arith, h, i);
        added = ground (arith, h, i);
      }

  frob_control-lem :
      (clock : Option (Text × Text)) (mask val : ℕ) (d : Debug)
      → debug_frob_control around clock mask val d
        ≡ (debug_display_control around clock ((d.soft_ctr ∩ complement mask) ⊖ val) d).1
  unfolding debug_display_control debug_frob_control
  frob_control-lem clock mask val d = elim (Bool-cases (is_disabled d.debugging_enabled)) [
    | inl h ↦ rw h refl
    | inr h ↦ rw h refl
  ]

  -- stderr has been given `told`, if debugging is asked for.
  abbrev Tells : Debug → List Text → Debug → Type 0
  Tells d told e =
      (is_quiet d ≡ true → e.stderr ≡ d.stderr) × (is_quiet d ≡ false → e.stderr ≡ d.stderr ++ told)

  then-Tells :
      (same : Bool) (line : Text) (last ct : ℕ) (calls : List Call) (d e f : Debug)
      → Shown same line last ct d e
      → Tells e (told e.last_status e.soft_ctr calls) f
      → Tells d (if same then told last ct calls else line ∷ told last ct calls) f
  then-Tells same line last ct calls d e f shown (i, j) =
      let after = told last ct calls in
      (
        λ q. i (shown.quiet ∙ q) ∙ shown.silent q,
        λ q.
            let more : f.stderr ≡ e.stderr ++ after =
              j (shown.quiet ∙ q)
              ∙ ap₂ (λ x y. e.stderr ++ told x y calls) (shown.last_kept q) (shown.ct_kept q) in
            elim (Bool-cases same) [
              | inl h ↦ rw h (more ∙ ap (λ x. x ++ after) (shown.added q ∙ rw h refl))
              | inr h ↦ rw h (
                  more
                  ∙ ap (λ x. x ++ after) (shown.added q ∙ rw h refl)
                  ∙ append_assoc d.stderr (line ∷ []) after)
            ],
      )

  run_calls-Tells :
      (calls : List Call) (d : Debug)
      → Tells d (told d.last_status d.soft_ctr calls) (run_calls calls d).1
  unfolding run_calls told
  run_calls-Tells [] d = (λ q. refl, λ q. sym (append-nil d.stderr))
  run_calls-Tells (status clock st ∷ calls) d =
      let e = (debug_display_status around clock st d).1 in
      then-Tells (d.last_status == st) (status_line (timeofday clock) st) st d.soft_ctr calls d e
        (run_calls calls e).1 (display_status-Shown clock st d) (run_calls-Tells calls e)
  run_calls-Tells (control clock ct ∷ calls) d =
      let e = (debug_display_control around clock ct d).1 in
      then-Tells (d.soft_ctr == ct) (control_line (timeofday clock) ct) d.last_status ct calls d e
        (run_calls calls e).1 (display_control-Shown clock ct d) (run_calls-Tells calls e)
  run_calls-Tells (frob clock mask val ∷ calls) d =
      let ct = (d.soft_ctr ∩ complement mask) ⊖ val in
      let e = (debug_display_control around clock ct d).1 in
      rw (run_calls, frob_control-lem clock mask val d)
        (then-Tells (d.soft_ctr == ct) (control_line (timeofday clock) ct) d.last_status ct calls d
          e (run_calls calls e).1 (display_control-Shown clock ct d) (run_calls-Tells calls e))

  display_status-returns :
      (clock : Option (Text × Text)) (st : ℕ) (d : Debug)
      → (debug_display_status around clock st d).0 ≡ st
  unfolding debug_display_status
  display_status-returns clock st d = ground arith

  display_control-returns :
      (clock : Option (Text × Text)) (ct : ℕ) (d : Debug)
      → (debug_display_control around clock ct d).0 ≡ ct
  unfolding debug_display_control
  display_control-returns clock ct d = ground arith

  run_calls-returns : (calls : List Call) (d : Debug) → (run_calls calls d).0 ≡ given calls
  unfolding run_calls given
  run_calls-returns [] d = refl
  run_calls-returns (status clock st ∷ calls) d =
      ap₂ ◌∷◌ (display_status-returns clock st d) (run_calls-returns calls _)
  run_calls-returns (control clock ct ∷ calls) d =
      ap₂ ◌∷◌ (display_control-returns clock ct d) (run_calls-returns calls _)
  run_calls-returns (frob clock mask val ∷ calls) d = run_calls-returns calls _

-- From the start of a program, and whatever calls of the three functions follow one another: if the
-- variable of the environment is set and stderr is open, stderr is given a line for each status that
-- differs from the last status, and for each value of the control lines that differs from their last
-- value, both 0xff at first; else nothing. What is displayed is returned.
pub displays-Told :
    (around : Surroundings) (calls : List Call)
    → ((run_calls around calls initial).0 ≡ given calls)
      × ((run_calls around calls initial).1.stderr
          ≡ (if around.getenv && around.stderr_open then told 0xff 0xff calls else []))
displays-Told around calls =
    let (quiet, loud) = run_calls-Tells around calls initial in
    (
      run_calls-returns around calls initial,
      elim (Bool-cases (around.getenv && around.stderr_open)) [
        | inl h ↦ rw h (loud (rw h refl))
        | inr h ↦ rw h (quiet (rw h refl))
      ],
    )
