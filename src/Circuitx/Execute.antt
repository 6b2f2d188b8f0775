-- ===== src/Circuitx/Execute.antt =====
-- circuitx/circuitx.go: `Execute`, `TryExecute` and the settlement of a call in `executeRun`.
-- A callback sees its controller, and may use the breaker itself while it runs, as may everybody
-- else: it turns the breaker that it is started with into the one at its end.
use urx.Base.{
  ℕ, ◌+◌, String, Bool, true, false, not, ◌&&◌, Option, none, some, List, [], ◌∷◌, if◌then◌else◌,
  u64,
}
use urx.Base.Errors.{
  Error, sentinel, wrap, circuitx, nil_func, circuit_open, cancelled, is_canceled, has_panic,
}
use urx.Base.Errors.{Reason}
use urx.Circuitx.Breaker.{
  Admission, try_admit, release_probe, record_success, record_failure, open_from,
  is_half_open_state,
}
use urx.Circuitx.Config.{op_or_default, op_or_default_try}
use urx.Circuitx.Types.{State, Config, Breaker, Execution}
use urx.Panix.Recover.{Outcome, safe}

-- What a callback asks of its controller.
pub data Call : Type 0 where
  skip_failure trip : Call

unfoldable pub apply_call : Call → Execution → Execution
apply_call skip_failure e = record e { skip_failure = true }
apply_call trip e = record e { tripped = true }

unfoldable pub apply_calls : List Call → Execution → Execution
unfolding apply_call
apply_calls [] e = e
apply_calls (c ∷ cs) e = apply_calls cs (apply_call c e)

-- One run of a callback: the breaker afterwards, its calls of the controller, and how it ends.
pub record Effect {ℓ} (A : Type ℓ) : Type ℓ where
  pub breaker : Breaker
  pub calls : List Call
  pub outcome : Outcome A

unfoldable pub counts_as_failure : Config → Error → Bool
counts_as_failure cfg err =
    if has_panic err
    then true
    else if is_canceled err && not cfg.count_canceled
    then false
    else elim cfg.failure_if [ none ↦ true | some fn ↦ fn err ]

abbrev is_failure : Config → Execution → Option Error → Bool
is_failure cfg cc none = false
is_failure cfg cc (some err) = not cc.skip_failure && counts_as_failure cfg err

abbrev is_success : Option Error → Bool
is_success none = true
is_success (some _) = false

-- The settlement of a call that has ended: the branches of `executeRun` behind the callback.
unfoldable pub settle : ℕ → ℕ → Execution → Option Error → Breaker → Breaker
unfolding counts_as_failure record_success record_failure open_from
settle now gen cc err b =
    if is_failure b.cfg cc err
    then record_failure now cc.tripped gen (record b { total_fail = u64 (b.total_fail + 1) })
    else if cc.tripped
    then open_from now gen b
    else if is_success err
    then record_success gen (record b { successes = u64 (b.successes + 1) })
    else b

unfoldable pub controller : State → Breaker → Execution
controller s b = record {
  state = s;
  failures = b.failures;
  max_failures = b.cfg.max_failures;
  skip_failure = false;
  tripped = false;
}

module _ {ℓ} {A : Type ℓ} (zero_value : A) where
  -- The deferred release of a probe's slot runs last. `later` is the clock at the settlement.
  unfoldable pub execute_run :
      ℕ
      → String
      → Admission
      → (Execution → Breaker → Effect A)
      → Breaker
      → Breaker × A × Option Error
  execute_run later op adm fn b =
      let cc = controller adm.state b in
      let ran = fn cc b in
      let (val, err) = safe zero_value op ran.outcome in
      let b' = settle later adm.gen (apply_calls ran.calls cc) err ran.breaker in
      (if is_half_open_state adm.state then release_probe adm.gen b' else b', val, err)

  -- `ctx` is `ctx.Err()` at the admission; a nil function is none.
  unfoldable pub execute :
      ℕ
      → ℕ
      → Option Error
      → Option (Execution → Breaker → Effect A)
      → Breaker
      → Breaker × A × Option Error
  execute now later ctx fn b =
      if b.is_shut then (b, zero_value, some (sentinel circuitx Reason.closed)) else elim fn [
        | none ↦ (b, zero_value, some (sentinel circuitx nil_func))
        | some f ↦ elim ctx [
          | some cause ↦ (b, zero_value, some (wrap (sentinel circuitx cancelled) cause))
          | none ↦
              let (b', adm) = try_admit now b in
              if adm.ok
              then execute_run later (op_or_default b.cfg) adm f b'
              else (b', zero_value, some (sentinel circuitx circuit_open))
        ]
      ]

  unfoldable pub try_execute :
      ℕ
      → ℕ
      → Option Error
      → Option (Execution → Breaker → Effect A)
      → Breaker
      → Breaker × Bool × A × Option Error
  try_execute now later ctx fn b =
      if b.is_shut
      then (b, false, zero_value, some (sentinel circuitx Reason.closed))
      else elim fn [
        | none ↦ (b, false, zero_value, some (sentinel circuitx nil_func))
        | some f ↦ elim ctx [
          | some cause ↦ (b, false, zero_value, some (wrap (sentinel circuitx cancelled) cause))
          | none ↦
              let (b', adm) = try_admit now b in
              if adm.ok
              then (let (b'', val, err) = execute_run later (op_or_default_try b.cfg) adm f b' in
                  (b'', true, val, err))
              else (b', false, zero_value, none)
        ]
      ]
