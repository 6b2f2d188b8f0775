-- ===== src/Base/Errors.antt =====
-- Go errors as the packages build and inspect them: the context's two errors, the packages'
-- sentinels, `fmt.Errorf` with two `%w`, and a recovered panic (panix/errors.go).
use Prim.Native.Nat.{ℕ}
use Prim.Native.String.{String}
use mathlib.Core.Bool.{Bool, true, false, ◌||◌}

pub data Package : Type 0 where
  circuitx ratex retryx bulkx lrux shedx adaptx quotax : Package

-- What a sentinel says, with the package's prefix left out.
pub data Reason : Type 0 where
  circuit_open nil_func closed cancelled exceeds_burst exhausted aborted max_elapsed : Reason
  timeout waiters_exceeded rejected drain_timeout rate_limited max_keys_reached : Reason

pub data Error : Type 0 where
  canceled : Error
  deadline_exceeded : Error
  sentinel : Package → Reason → Error
  -- `fmt.Errorf("%w: %w", a, b)`
  wrap : Error → Error → Error
  -- `fmt.Errorf("%w (attempts=%d): %w", a, n, b)`
  wrap_attempts : Error → ℕ → Error → Error
  -- a `PanicError` with its operation, whose panic value is no error, or is one
  panic_value : String → ℕ → Error
  panic_cause : String → Error → Error
  -- any error of the caller's own that wraps none
  foreign : ℕ → Error

-- `errors.Is(err, context.Canceled)`: `PanicError.Unwrap` leads to an error that was panicked with.
abbrev pub is_canceled : Error → Bool
is_canceled canceled = true
is_canceled (wrap a b) = is_canceled a || is_canceled b
is_canceled (wrap_attempts a n b) = is_canceled a || is_canceled b
is_canceled (panic_cause op e) = is_canceled e
is_canceled _ = false

-- `errors.As(err, &pe)` for a `*panix.PanicError`.
abbrev pub has_panic : Error → Bool
has_panic (panic_value op v) = true
has_panic (panic_cause op e) = true
has_panic (wrap a b) = has_panic a || has_panic b
has_panic (wrap_attempts a n b) = has_panic a || has_panic b
has_panic _ = false
