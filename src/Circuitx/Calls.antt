-- ===== src/Circuitx/Calls.antt =====
-- circuitx/circuitx.go: whole calls of `Execute` and `TryExecute`.
use urx.Base.{ℕ, ◌+◌, ◌≡◌, refl, ◌⊎◌, true, false, Option, none, some, arith, is_empty, u64, String}
use urx.Base.Errors.{Error, sentinel, circuitx, circuit_open, panic_value, panic_cause, has_panic}
use urx.Circuitx.Breaker.{try_admit, is_half_open_state}
use urx.Circuitx.Config.{op_or_default, op_or_default_try}
use urx.Circuitx.Execute.{
  Effect, execute, try_execute, execute_run, settle, controller, apply_calls,
}
use urx.Circuitx.Types.{Config, State, closed, Breaker, Execution}
use urx.Panix.Recover.{Outcome, returns, panics, panics_error, safe}

same_op : (c : Config) → is_empty c.op ≡ false → op_or_default c ≡ op_or_default_try c
unfolding op_or_default op_or_default_try
same_op c h = rw h

module _ {ℓ} {A : Type ℓ} (zero_value : A) (now later : ℕ) (ctx : Option Error) where
  -- With an operation name configured, `TryExecute` does to the breaker what `Execute` does and
  -- gives the same value. It gives the same error too, but where the circuit rejects the call:
  -- there the callback has not run, and `TryExecute` gives no error and `Execute` gives `ErrOpen`.
  pub try_execute-execute :
      (fn : Option (Execution → Breaker → Effect A)) (b : Breaker)
      → is_empty b.cfg.op ≡ false
      → let (b₁, v₁, e₁) = execute zero_value now later ctx fn b in
        let (b₂, ran, v₂, e₂) = try_execute zero_value now later ctx fn b in
        (b₁ ≡ b₂)
        × (v₁ ≡ v₂)
        × ((e₁ ≡ e₂) ⊎ ((ran ≡ false) × (e₂ ≡ none) × (e₁ ≡ some (sentinel circuitx circuit_open))))
  unfolding execute try_execute
  try_execute-execute fn b named = ground (arith, same_op b.cfg named)

admit_closed :
    (now : ℕ) (b : Breaker)
    → b.state ≡ closed
    → try_admit now b ≡ (b, record { state = closed; gen = b.generation; ok = true })
unfolding try_admit
admit_closed now b c = ground arith

-- The `PanicError` that a panic of the callback becomes, whose value is no error, or is one, as for
-- every panic of Go's runtime.
abbrev pub panic_of {ℓ} : {A : Type ℓ} → String → Outcome A → Option Error
panic_of op (returns val err) = none
panic_of op (panics v) = some (panic_value op v)
panic_of op (panics_error e) = some (panic_cause op e)

-- What a panicking callback gives and counts.
abbrev Fails {ℓ} : {A : Type ℓ} → A → Error → Breaker → Breaker × A × Option Error → Type ℓ
Fails zero_value pe b (b', val, err) =
    (val ≡ zero_value) × (err ≡ some pe) × (b'.total_fail ≡ u64 (b.total_fail + 1))

settle_counts :
    (now gen : ℕ) (e : Error) (cc : Execution) (b : Breaker)
    → has_panic e ≡ true
    → cc.skip_failure ≡ false
    → (settle now gen cc (some e) b).total_fail ≡ u64 (b.total_fail + 1)
unfolding settle
settle_counts now gen e cc b p h = rw (h, p) (ground arith)

run_panics {ℓ} :
    {A : Type ℓ} (zero_value : A) (later gen : ℕ) (op : String) (s : State)
    (fn : Execution → Breaker → Effect A) (b : Breaker) (o : Outcome A) (pe : Error)
    → is_half_open_state s ≡ false
    → let cc = controller s b in
      (fn cc b).outcome ≡ o
      → panic_of op o ≡ some pe
      → (apply_calls (fn cc b).calls cc).skip_failure ≡ false
      → Fails zero_value pe
          (fn cc b).breaker
          (execute_run zero_value later op (record { state = s; gen = gen; ok = true }) fn b)
unfolding execute_run safe
run_panics zero_value later gen op s fn b (returns val err) pe n e h k = absurd cc
run_panics zero_value later gen op s fn b (panics v) pe n e h k =
    rw (e, n)
      (refl, h, settle_counts later gen (panic_value op v) _ (fn (controller s b) b).breaker refl k)
run_panics zero_value later gen op s fn b (panics_error x) pe n e h k =
    rw (e, n)
      (refl, h, settle_counts later gen (panic_cause op x) _ (fn (controller s b) b).breaker refl k)

execute_closed {ℓ} :
    {A : Type ℓ} (zero_value : A) (now later : ℕ) (fn : Execution → Breaker → Effect A)
    (b : Breaker)
    → b.is_shut ≡ false
    → b.state ≡ closed
    → execute zero_value now later none (some fn) b
      ≡ execute_run zero_value later
          (op_or_default b.cfg)
          (record { state = closed; gen = b.generation; ok = true })
          fn
          b
unfolding execute
execute_closed zero_value now later fn b o c = ground (arith, admit_closed now b c)

-- A callback that panics, with a value that is an error or with one that is none, and that has not
-- asked to be skipped, fails: the caller gets the zero value and a `PanicError` with the operation's
-- name and the panic's value, and the failure is counted, whatever predicate the breaker was given,
-- and also where the panic's value is `context.Canceled`. (For a call that is admitted in the closed
-- state.)
pub execute-panics {ℓ} :
    {A : Type ℓ} (zero_value : A) (now later : ℕ) (fn : Execution → Breaker → Effect A)
    (b : Breaker) (pe : Error)
    → b.is_shut ≡ false
    → b.state ≡ closed
    → let ended = fn (controller closed b) b in
      panic_of (op_or_default b.cfg) ended.outcome ≡ some pe
      → (apply_calls ended.calls (controller closed b)).skip_failure ≡ false
      → let (b', val, err) = execute zero_value now later none (some fn) b in
        (val ≡ zero_value) × (err ≡ some pe) × (b'.total_fail ≡ u64 (ended.breaker.total_fail + 1))
execute-panics zero_value now later fn b pe o c h k =
    rw (execute_closed zero_value now later fn b o c) (
      run_panics zero_value later b.generation (op_or_default b.cfg) closed fn b
        (fn (controller closed b) b).outcome pe refl refl h k)
