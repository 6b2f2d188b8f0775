-- ===== src/Panix/Recover.antt =====
-- panix/panix.go: `Safe` and what is built on it. A run of a Go function ends in a return of its
-- two results or in a panic; the stack trace of a `PanicError` is left out (Capture has its size).
use urx.Base.{ℕ, String, Bool, Option, none, some, if◌then◌else◌}
use urx.Base.Errors.{Error, panic_value, panic_cause}

-- How a call of `fn` ends.
pub data Outcome {ℓ} (A : Type ℓ) : Type ℓ where
  returns : A → Option Error → Outcome A
  -- a panic with a value that is no error
  panics : ℕ → Outcome A
  -- a panic with an error
  panics_error : Error → Outcome A

-- `zero_value` is Go's zero of the result type.
unfoldable pub safe {ℓ} : {A : Type ℓ} → A → String → Outcome A → A × Option Error
safe zero_value op (returns val err) = (val, err)
safe zero_value op (panics v) = (zero_value, some (panic_value op v))
safe zero_value op (panics_error e) = (zero_value, some (panic_cause op e))

-- `SafeVoid` wraps the call in a function with an empty result.
abbrev lift_void : Outcome (Unit {0}) → Outcome (Unit {0})
lift_void (returns _ err) = returns tt err
lift_void (panics v) = panics v
lift_void (panics_error e) = panics_error e

unfoldable pub safe_void : String → Outcome (Unit {0}) → Option Error
unfolding safe
safe_void op run = (safe tt op (lift_void run)).1

-- `Wrap` and `WrapVoid`: a run of the returned function.
abbrev pub wrapped {ℓ} : {A : Type ℓ} → A → String → Outcome A → A × Option Error
wrapped zero_value op run = safe zero_value op run

abbrev pub wrapped_void : String → Outcome (Unit {0}) → Option Error
wrapped_void op run = safe_void op run

-- The goroutine of `SafeGo`: the error that it hands to its callback, if there is one and it was
-- called. A panic of the callback is dropped; `run` has no error of its own.
unfoldable pub safe_go : String → Outcome (Unit {0}) → Bool → Option Error
unfolding safe_void
safe_go op run has_callback = if has_callback then safe_void op run else none
