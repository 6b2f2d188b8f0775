-- ===== src/Retryx/Loop.antt =====
-- retryx/retryx.go: `Do`. What surrounds the attempt with index `i` (from 0) is `around i`: what the
-- context says at each look, the clock's readings, and the random number.
use urx.Base.{
  ℕ, zero, suc, ◌+◌, Bool, true, ◌&&◌, Option, none, some, List, [], ◌∷◌, ◌++◌, if◌then◌else◌, ltb,
  leb, ◌==◌,
}
use urx.Base.Errors.{
  Error, sentinel, wrap, wrap_attempts, retryx, nil_func, cancelled, exhausted, aborted,
  max_elapsed,
}
use urx.Panix.Recover.{Outcome, returns, panics, panics_error, safe, safe_void}
use urx.Retryx.Config.{Config, RetryOption, new_config, op_or_default}
use urx.Retryx.Delays.{delay_after}

-- The `attempt` behind a `RetryController`.
pub record Attempt : Type 0 where
  pub number : ℕ
  pub last_err : Option Error

-- One run of the callback: how it ends, and whether it called `Abort`.
pub record Tried {ℓ} (A : Type ℓ) : Type ℓ where
  pub outcome : Outcome A
  pub aborts : Bool

pub record Surroundings : Type 0 where
  pub ctx_head : Option Error  -- `ctx.Err()` before the attempt
  pub head_at : ℕ  -- nanoseconds since the start, before the attempt
  pub ctx_after : Option Error  -- `ctx.Err()` after a failed attempt
  pub delay_at : ℕ  -- nanoseconds since the start, when the delay is computed
  pub random : ℕ
  pub ctx_sleep : Option Error  -- what `sleep` returns

-- What `Do` does that can be seen from outside.
pub data Act : Type 0 where
  called : Attempt → Act
  hooked : ℕ → Error → Act
  slept : ℕ → Act

pub data Verdict {ℓ} (A : Type ℓ) : Type ℓ where
  finish : A → Option Error → Verdict A
  -- the next attempt follows, after this error
  again : Error → Verdict A

abbrev pub err_cancelled : Error → Error
err_cancelled cause = wrap (sentinel retryx cancelled) cause

abbrev pub err_exhausted : ℕ → Error → Error
err_exhausted n cause = wrap_attempts (sentinel retryx exhausted) n cause

abbrev pub err_aborted : ℕ → Error → Error
err_aborted n cause = wrap_attempts (sentinel retryx aborted) n cause

-- A nil cause does not occur: the loop is past its first attempt there.
abbrev pub wrap_last : Error → Option Error → Error
wrap_last e none = e
wrap_last e (some cause) = wrap e cause

unfoldable pub is_retryable : Config → Error → Bool
is_retryable cfg err = elim cfg.retry_if [ some fn ↦ fn err | none ↦ true ]

-- `cfg.onRetry(attempt, err); return nil`: a hook gives no error of its own.
abbrev return_nil : Outcome (Unit {0}) → Outcome (Unit {0})
return_nil (returns _ _) = returns tt none
return_nil (panics v) = panics v
return_nil (panics_error e) = panics_error e

unfoldable pub fire_on_retry : Config → ℕ → Error → Option Error
fire_on_retry cfg attempt err = elim cfg.on_retry [
  | none ↦ none
  | some hook ↦ safe_void (op_or_default cfg) (return_nil (hook attempt err))
]

abbrev pub hook_acts : Config → ℕ → Error → List Act
hook_acts cfg attempt err = elim cfg.on_retry [ none ↦ [] | some hook ↦ hooked attempt err ∷ [] ]

module _ {ℓ} {A : Type ℓ} (zero_value : A) (cfg : Config) where
  -- From the hook to the end of the sleep.
  unfoldable pub pause : Surroundings → ℕ → ℕ → Error → List Act × Verdict A
  pause s i number err =
      let d = delay_after cfg s.random number err i s.delay_at in
      elim (fire_on_retry cfg number err) [
        | some broken ↦ (hook_acts cfg number err, finish zero_value (some broken))
        | none ↦ (
          hook_acts cfg number err ++ slept d ∷ [],
          elim s.ctx_sleep [
            | some cause ↦ finish zero_value (some (err_cancelled cause))
            | none ↦ again err
          ],
        )
      ]

  -- What follows an attempt that failed with `err`.
  unfoldable pub after_failure : Surroundings → ℕ → Bool → Error → List Act × Verdict A
  unfolding pause
  after_failure s i aborts err =
      if aborts
      then ([], finish zero_value (some (err_aborted (i + 1) err)))
      else elim s.ctx_after [
        | some cause ↦ ([], finish zero_value (some (err_cancelled cause)))
        | none ↦
            if is_retryable cfg err
            then (if i + 1 == cfg.max_attempts
                then ([], finish zero_value (some (err_exhausted cfg.max_attempts err)))
                else pause s i (i + 1) err)
            else ([], finish zero_value (some (err_exhausted (i + 1) err)))
      ]

  abbrev pub judge : Surroundings → ℕ → Bool → A × Option Error → List Act × Verdict A
  judge s i aborts (val, none) = ([], finish val none)
  judge s i aborts (val, some err) = after_failure s i aborts err

  -- One pass of the loop.
  unfoldable pub round :
      (Attempt → Tried A) → Surroundings → ℕ → Option Error → List Act × Verdict A
  unfolding after_failure
  round fn s i last = elim s.ctx_head [
    | some cause ↦ ([], finish zero_value (some (err_cancelled cause)))
    | none ↦
        if ltb 0 i && (ltb 0 cfg.max_elapsed && leb cfg.max_elapsed s.head_at)
        then ([], finish zero_value (some (wrap_last (sentinel retryx max_elapsed) last)))
        else let rc : Attempt = record { number = i + 1; last_err = last } in
          let tried = fn rc in
          let (acts, verdict) =
            judge s i tried.aborts (safe zero_value (op_or_default cfg) tried.outcome) in
          (called rc ∷ acts, verdict)
  ]

  abbrev pub extend :
      List Act × Verdict A → (Error → List Act × A × Option Error) → List Act × A × Option Error
  extend (acts, finish val err) rest = (acts, val, err)
  extend (acts, again err) rest = let (more, val, e) = rest err in (acts ++ more, val, e)

  -- The loop with `left` attempts to go, at index `i`.
  unfoldable pub loop :
      (Attempt → Tried A) → (ℕ → Surroundings) → ℕ → ℕ → Option Error → List Act × A × Option Error
  loop fn around zero i last = ([], zero_value, some (wrap_last (sentinel retryx exhausted) last))
  loop fn around (suc left) i last =
      extend (round fn (around i) i last) (λ err. loop fn around left (suc i) (some err))

unfoldable pub do_retry {ℓ} :
    {A : Type ℓ}
    → A
    → Option (Attempt → Tried A)
    → (ℕ → Surroundings)
    → List (Option RetryOption)
    → List Act × A × Option Error
unfolding loop
do_retry zero_value fn around opts =
    let cfg = new_config opts in
    elim fn [
      | none ↦ ([], zero_value, some (sentinel retryx nil_func))
      | some f ↦ loop zero_value cfg f around cfg.max_attempts 0 none
    ]
