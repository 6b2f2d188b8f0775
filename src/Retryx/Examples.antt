-- ===== src/Retryx/Examples.antt =====
-- Runs of `Do`, and the theorems at concrete inputs.
use urx.Base.{
  ℕ, zero, suc, ◌*◌, ◌≤◌, ◌<◌, ◌≡◌, refl, false, Option, none, some, List, [], ◌∷◌, arith, All,
  length,
}
use urx.Base.Errors.{Error, foreign}
use urx.Base.Int.{pos}
use urx.Panix.Recover.{returns, safe}
use urx.Retryx.Calm.{IsCalm, Fails, do_retry_first_success, do_retry_all_fail}
use urx.Retryx.Config.{
  RetryOption, with_max_attempts, with_backoff, with_max_elapsed, with_jitter, new_config,
  op_or_default,
}
use urx.Retryx.Delays.{delay_after}
use urx.Retryx.Loop.{
  Attempt, Tried, Surroundings, called, slept, err_exhausted, do_retry, round, is_retryable,
  fire_on_retry,
}
use urx.Retryx.Outcomes.{attempts, InBudget, do_retry-InBudget}

program : Unit {0}
unfolding new_config do_retry round delay_after op_or_default is_retryable fire_on_retry safe
program = tt

-- Four attempts, a first delay of 100 nanoseconds, no jitter.
abbrev opts : List (Option RetryOption)
opts =
    some (with_max_attempts (pos 4))
    ∷ none
    ∷ some (with_backoff (pos 100))
    ∷ some (with_jitter false)
    ∷ []

abbrev timed : List (Option RetryOption)
timed = some (with_max_elapsed (pos 250)) ∷ opts

-- A live context; the attempts take no time, and the sleeps just what they should.
abbrev around : ℕ → Surroundings
around i = record {
  ctx_head = none;
  head_at = 100 * i;
  ctx_after = none;
  delay_at = 100 * i;
  random = 0;
  ctx_sleep = none;
}

-- The third attempt gives 7; the first two fail.
abbrev third : ℕ → ℕ × Option Error
third (suc (suc (suc zero))) = (7, none)
third n = (0, some (foreign n))

abbrev flaky : Attempt → Tried ℕ
flaky rc = record { outcome = returns (third rc.number).0 (third rc.number).1; aborts = false }

abbrev broken : Attempt → Tried ℕ
broken rc = record { outcome = returns 9 (some (foreign rc.number)); aborts = false }

flaky_run : do_retry 0 (some flaky) around opts ≡ (
  called (record { number = 1; last_err = none })
      ∷ slept 100
      ∷ called (record { number = 2; last_err = some (foreign 1) })
      ∷ slept 200
      ∷ called (record { number = 3; last_err = some (foreign 2) })
      ∷ [],
  7,
  none,
)
unfolding program
flaky_run = refl

-- The budget of 250 nanoseconds is used up before the fourth attempt, and cuts the third sleep.
broken_run : length (attempts (do_retry 0 (some broken) around timed).0) ≡ 3
unfolding program
broken_run = refl

timed_budget : 0 < (new_config timed).max_elapsed
unfolding program
timed_budget = omega arith

do_retry-InBudget_example :
    All (InBudget (new_config timed) around) (do_retry 0 (some broken) around timed).0
do_retry-InBudget_example = do_retry-InBudget 0 broken around timed timed_budget

flaky-IsCalm : IsCalm 0 (new_config opts) flaky around third
unfolding program
flaky-IsCalm = record {
  no_predicate = refl;
  no_hook = refl;
  no_budget = refl;
  live_head = λ i. refl;
  live_after = λ i. refl;
  live_sleep = λ i. refl;
  stays = λ rc. refl;
  ending = λ rc. refl;
}

broken-IsCalm : IsCalm 0 (new_config opts) broken around (λ n. (9, some (foreign n)))
unfolding program
broken-IsCalm = record {
  no_predicate = refl;
  no_hook = refl;
  no_budget = refl;
  live_head = λ i. refl;
  live_after = λ i. refl;
  live_sleep = λ i. refl;
  stays = λ rc. refl;
  ending = λ rc. refl;
}

third-Fails : (n : ℕ) → 0 < n → n < 3 → Fails (third n)
third-Fails zero p q = absurd (omega arith)
third-Fails (suc zero) p q = tt
third-Fails (suc (suc zero)) p q = tt
third-Fails (suc (suc (suc n))) p q = absurd (omega arith)

four : 3 ≤ (new_config opts).max_attempts
unfolding program
four = omega arith

do_retry_first_success_example :
    let (acts, v, e) = do_retry 0 (some flaky) around opts in
    (v ≡ 7) × (e ≡ none) × (length (attempts acts) ≡ 3)
do_retry_first_success_example =
    do_retry_first_success 0 flaky around opts third flaky-IsCalm 3 7 (omega arith) four third-Fails
      refl

do_retry_all_fail_example :
    let (acts, v, e) = do_retry 0 (some broken) around opts in
    (v ≡ 0)
    × (e
        ≡ some
            (err_exhausted (new_config opts).max_attempts (foreign (new_config opts).max_attempts)))
    × (length (attempts acts) ≡ (new_config opts).max_attempts)
do_retry_all_fail_example =
    do_retry_all_fail 0 broken around opts (λ n. (9, some (foreign n))) broken-IsCalm 9
      (foreign (new_config opts).max_attempts) (λ n p q. tt) refl
