-- ===== src/Panix/Examples.antt =====
-- Runs of the panix definitions, and the theorems at concrete inputs.
use urx.Base.{◌≡◌, refl, true, some, ℕ, arith, min}
use urx.Base.Errors.{foreign, panic_value, panic_cause, canceled}
use urx.Panix.Capture.{capture_stack_limited, capture_stack_limited_lem}
use urx.Panix.Recover.{returns, panics, panics_error, safe, safe_void, safe_go}

safe_returns : safe {A = ℕ} 0 "op" (returns 7 (some (foreign 1))) ≡ (7, some (foreign 1))
unfolding safe
safe_returns = refl

safe_recovers : safe {A = ℕ} 0 "op" (panics_error canceled) ≡ (0, some (panic_cause "op" canceled))
unfolding safe
safe_recovers = refl

void_recovers : safe_void "op" (panics_error canceled) ≡ some (panic_cause "op" canceled)
unfolding safe_void
void_recovers = refl

capture_grows : capture_stack_limited 10 10000 9000 ≡ some 9000
unfolding capture_stack_limited
capture_grows = refl

capture_stack_limited_lem_example : capture_stack_limited 65536 65536 9000 ≡ some (min 9000 65536)
capture_stack_limited_lem_example =
    capture_stack_limited_lem 65536 65536 9000 (omega arith) (omega arith)

go_reports : safe_go "op" (panics 4) true ≡ some (panic_value "op" 4)
unfolding safe_go
go_reports = refl
