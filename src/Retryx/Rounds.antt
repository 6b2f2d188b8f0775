-- ===== src/Retryx/Rounds.antt =====
-- retryx/retryx.go: the ways in which one pass of `Do`'s loop can go, as rules: what holds of each
-- way holds of the pass.
use urx.Base.{
  ℕ, ◌+◌, ◌≡◌, inl, inr, Bool, true, false, ◌&&◌, Option, none, some, List, [], ◌∷◌, ◌++◌, if-intro,
  ltb, leb, ◌==◌, Option-cases, Bool-cases,
}
use urx.Base.Errors.{Error}
use urx.Retryx.Config.{Config}
use urx.Retryx.Delays.{delay_after}
use urx.Retryx.Loop.{
  Attempt, Tried, Surroundings, Act, called, slept, Verdict, finish, again, fire_on_retry,
  hook_acts, is_retryable, pause, after_failure, judge, round,
}

module _ {ℓ κ} {A : Type ℓ} (zero_value : A) (cfg : Config)
    (P : List Act × Verdict A → Type κ) where
  -- After a failure: the call ends at once, or after the hook, or after the sleep, each time with
  -- the zero value and an error; or the next attempt follows the sleep.
  module _ (s : Surroundings) (i : ℕ) (err : Error)
      (at_once : (e : Error) → P ([], finish zero_value (some e)))
      (at_hook : (e : Error) → P (hook_acts cfg (i + 1) err, finish zero_value (some e)))
      (at_sleep : (e : Error)
        → P (
          hook_acts cfg (i + 1) err
              ++ slept (delay_after cfg s.random (i + 1) err i s.delay_at) ∷ [],
          finish zero_value (some e),
        ))
      (goes_on : P (
        hook_acts cfg (i + 1) err ++ slept (delay_after cfg s.random (i + 1) err i s.delay_at) ∷ [],
        again err,
      )) where
    pause-rule : P (pause zero_value cfg s i (i + 1) err)
    unfolding pause
    pause-rule = elim (Option-cases (fire_on_retry cfg (i + 1) err)) [
      | inr (x, e) ↦ rw (e, pause) (at_hook x)
      | inl e ↦
          rw (e, pause)
            (elim (Option-cases s.ctx_sleep) [
              | inl c ↦ rw c goes_on
              | inr (x, c) ↦ rw c (at_sleep _)
            ])
    ]

    pub after_failure-rule : (aborts : Bool) → P (after_failure zero_value cfg s i aborts err)
    unfolding after_failure
    after_failure-rule true = at_once _
    after_failure-rule false = elim (Option-cases s.ctx_after) [
      | inr (x, e) ↦ rw (e, after_failure) (at_once _)
      | inl e ↦
          rw (e, after_failure)
            (if-intro P (is_retryable cfg err) _ _
              (if-intro P (i + 1 == cfg.max_attempts) _ _ (at_once _) pause-rule) (at_once _))
    ]

  -- Is it too late for another attempt?
  abbrev pub is_late : Surroundings → ℕ → Bool
  is_late s i = ltb 0 i && (ltb 0 cfg.max_elapsed && leb cfg.max_elapsed s.head_at)

  -- A pass: the call ends before the attempt, or the attempt is made in time, and succeeds or fails.
  module _ (fn : Attempt → Tried A) (s : Surroundings) (i : ℕ) (last : Option Error)
      (refuses : (e : Error) → P ([], finish zero_value (some e)))
      (succeeds : (val : A)
        → is_late s i ≡ false
        → P (called (record { number = i + 1; last_err = last }) ∷ [], finish val none))
      (fails : (err : Error) (aborts : Bool)
        → is_late s i ≡ false
        → P (
          called (record { number = i + 1; last_err = last })
              ∷ (after_failure zero_value cfg s i aborts err).0,
          (after_failure zero_value cfg s i aborts err).1,
        )) where
    judge-rule :
        (aborts : Bool) (res : A × Option Error)
        → is_late s i ≡ false
        → P (
          called (record { number = i + 1; last_err = last })
              ∷ (judge zero_value cfg s i aborts res).0,
          (judge zero_value cfg s i aborts res).1,
        )
    judge-rule aborts (val, none) h = succeeds val h
    judge-rule aborts (val, some err) h = fails err aborts h

    pub round-rule : P (round zero_value cfg fn s i last)
    unfolding round
    round-rule = elim (Option-cases s.ctx_head) [
      | inr (x, e) ↦ rw (e, round) (refuses _)
      | inl e ↦
          rw (e, round)
            (elim (Bool-cases (is_late s i)) [
              | inl late ↦ rw late (refuses _)
              | inr in_time ↦ rw in_time (judge-rule _ _ in_time)
            ])
    ]
