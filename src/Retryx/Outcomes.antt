-- ===== src/Retryx/Outcomes.antt =====
-- retryx/retryx.go: which attempts `Do` makes and what it returns.
use urx.Base.{
  ℕ, zero, suc, ◌+◌, ◌-◌, ◌≤◌, ◌<◌, ◌≡◌, ◌⊎◌, inl, inr, refl, ap, false, ◌&&◌, Option, none, some,
  List, [], ◌∷◌, ◌++◌, arith, ltb, leb, All, length, All-append, Option-cases,
}
use urx.Base.Errors.{Error}
use urx.Retryx.Bounds.{delay_after_budget}
use urx.Retryx.Config.{Config, RetryOption, new_config}
use urx.Retryx.Delays.{delay_after}
use urx.Retryx.Rounds.{after_failure-rule, round-rule}
use urx.Retryx.Loop.{
  Attempt, Tried, Surroundings, Act, called, hooked, slept, hook_acts, extend, loop, do_retry,
}

-- The attempts made, in order.
abbrev pub attempts : List Act → List Attempt
attempts [] = []
attempts (called rc ∷ acts) = rc ∷ attempts acts
attempts (hooked n e ∷ acts) = attempts acts
attempts (slept d ∷ acts) = attempts acts

-- Attempts that are numbered one after the other from `n`.
abbrev pub NumberedFrom : ℕ → List Attempt → Type 0
NumberedFrom n [] = Unit
NumberedFrom n (rc ∷ rcs) = (rc.number ≡ n) × NumberedFrom (n + 1) rcs

attempts-append : (xs ys : List Act) → attempts (xs ++ ys) ≡ attempts xs ++ attempts ys
attempts-append [] ys = refl
attempts-append (called rc ∷ xs) ys = ap (◌∷◌ rc) (attempts-append xs ys)
attempts-append (hooked n e ∷ xs) ys = attempts-append xs ys
attempts-append (slept d ∷ xs) ys = attempts-append xs ys

hook-attempts : (cfg : Config) (n : ℕ) (e : Error) → attempts (hook_acts cfg n e) ≡ []
hook-attempts cfg n e = elim (Option-cases cfg.on_retry) [ inl c ↦ rw c | inr (h, c) ↦ rw c ]

-- The hook and the sleep make no attempt, whatever follows them.
pause_attempts :
    (cfg : Config) (n d : ℕ) (e : Error) (more : List Act)
    → attempts ((hook_acts cfg n e ++ slept d ∷ []) ++ more) ≡ attempts more
pause_attempts cfg n d e more = rw (attempts-append, attempts-append, hook-attempts cfg n e)

-- An attempt but the first begins before the budget is used up; a sleep is no longer than it.
abbrev pub InBudget : Config → (ℕ → Surroundings) → Act → Type 0
InBudget cfg around (called rc) =
    (rc.number ≡ 1) ⊎ ((around (rc.number - 1)).head_at < cfg.max_elapsed)
InBudget cfg around (hooked n e) = Unit
InBudget cfg around (slept d) = d ≤ cfg.max_elapsed

module _ {ℓ} {A : Type ℓ} (zero_value : A) (cfg : Config) (fn : Attempt → Tried A)
    (around : ℕ → Surroundings) where
  -- At most `left` attempts, numbered from `i + 1`, and the zero value beside an error.
  abbrev Orderly : ℕ → ℕ → List Act × A × Option Error → Type ℓ
  Orderly i left (acts, val, err) =
      NumberedFrom (i + 1) (attempts acts)
      × (length (attempts acts) ≤ left)
      × ((err ≡ none) ⊎ (val ≡ zero_value))

  loop-Orderly :
      (left i : ℕ) (last : Option Error)
      → Orderly i left (loop zero_value cfg fn around left i last)
  unfolding loop
  loop-Orderly zero i last = (tt, omega arith, inr refl)
  loop-Orderly (suc left) i last =
      let rest : Error → List Act × A × Option Error =
        λ err. loop zero_value cfg fn around left (suc i) (some err) in
      round-rule zero_value cfg (λ x. Orderly i (suc left) (extend zero_value cfg x rest)) fn
        (around i) i last (λ e. (tt, omega arith, inr refl))
        (λ val h. ((refl, tt), omega arith, inl refl))
        (λ err aborts h.
          after_failure-rule zero_value cfg
            (λ x. Orderly i (suc left) (
              extend zero_value cfg (called (record { number = i + 1; last_err = last }) ∷ x.0, x.1)
                rest))
            (around i) i err (λ e. ((refl, tt), omega arith, inr refl))
            (λ e. rw (hook-attempts cfg (i + 1) err) ((refl, tt), omega arith, inr refl))
            (λ e.
              rw (attempts-append, hook-attempts cfg (i + 1) err)
                ((refl, tt), omega arith, inr refl))
            (let ih = loop-Orderly left (suc i) (some err) in
              let e : i + 1 + 1 ≡ suc i + 1 = omega arith in
              rw
                (
                  pause_attempts cfg (i + 1)
                      (delay_after cfg (around i).random (i + 1) err i (around i).delay_at) err
                      (rest err).0,
                  e,
                )
                ((refl, ih.0), omega (arith, ih.1), ih.2))
            aborts)

  in_time :
      (i : ℕ)
      → 0 < cfg.max_elapsed
      → ltb 0 i && (ltb 0 cfg.max_elapsed && leb cfg.max_elapsed (around i).head_at) ≡ false
      → (last : Option Error)
      → InBudget cfg around (called (record { number = i + 1; last_err = last }))
  in_time i b h last = let e : i + 1 - 1 ≡ i = omega arith in rw e (ground arith)

  hook-InBudget : (n : ℕ) (e : Error) → All (InBudget cfg around) (hook_acts cfg n e)
  hook-InBudget n e = elim (Option-cases cfg.on_retry) [
    | inl c ↦ rw c tt
    | inr (h, c) ↦ rw c (tt, tt)
  ]

  pause-InBudget :
      (i : ℕ) (err : Error)
      → 0 < cfg.max_elapsed
      → All (InBudget cfg around) (
          hook_acts cfg (i + 1) err
          ++ slept (delay_after cfg (around i).random (i + 1) err i (around i).delay_at) ∷ [])
  pause-InBudget i err b =
      All-append (InBudget cfg around) (hook_acts cfg (i + 1) err) _ (hook-InBudget (i + 1) err) (
        omega (arith, delay_after_budget cfg (around i).random (i + 1) i (around i).delay_at err b),
        tt,
      )

  loop-InBudget :
      (left i : ℕ) (last : Option Error)
      → 0 < cfg.max_elapsed
      → All (InBudget cfg around) (loop zero_value cfg fn around left i last).0
  unfolding loop
  loop-InBudget zero i last b = tt
  loop-InBudget (suc left) i last b =
      let rest : Error → List Act × A × Option Error =
        λ err. loop zero_value cfg fn around left (suc i) (some err) in
      round-rule zero_value cfg (λ x. All (InBudget cfg around) (extend zero_value cfg x rest).0) fn
        (around i) i last (λ e. tt) (λ val h. (in_time i b h last, tt))
        (λ err aborts h.
          after_failure-rule zero_value cfg
            (λ x.
              All (InBudget cfg around)
                (extend zero_value cfg
                  (called (record { number = i + 1; last_err = last }) ∷ x.0, x.1) rest).0)
            (around i) i err (λ e. (in_time i b h last, tt))
            (λ e. (in_time i b h last, hook-InBudget (i + 1) err))
            (λ e. (in_time i b h last, pause-InBudget i err b))
            (
              in_time i b h last,
              All-append (InBudget cfg around) _ _ (pause-InBudget i err b)
                  (loop-InBudget left (suc i) (some err) b),
            )
            aborts)

module _ {ℓ} {A : Type ℓ} (zero_value : A) (fn : Attempt → Tried A) (around : ℕ → Surroundings)
    (opts : List (Option RetryOption)) where
  -- A call of `Do` makes at most `max_attempts` attempts, and numbers them from 1 one after the
  -- other. If it gives an error, it gives the zero value with it.
  pub do_retry_orderly :
      let (acts, val, err) = do_retry zero_value (some fn) around opts in
      NumberedFrom 1 (attempts acts)
      × (length (attempts acts) ≤ (new_config opts).max_attempts)
      × ((err ≡ none) ⊎ (val ≡ zero_value))
  unfolding do_retry
  do_retry_orderly =
      loop-Orderly zero_value (new_config opts) fn around (new_config opts).max_attempts 0 none

  -- Under `WithMaxElapsed` no attempt but the first is made when the budget is used up, and no sleep
  -- is longer than the budget.
  pub do_retry-InBudget :
      0 < (new_config opts).max_elapsed
      → All (InBudget (new_config opts) around) (do_retry zero_value (some fn) around opts).0
  unfolding do_retry
  do_retry-InBudget b =
      loop-InBudget zero_value (new_config opts) fn around (new_config opts).max_attempts 0 none b
