-- ===== src/Retryx/Calm.antt =====
-- retryx/retryx.go: `Do` where nothing but the attempts decides: a live context, no predicate, no
-- hook, no budget of time, and no call of `Abort`.
use urx.Base.{
  ℕ, zero, suc, ◌+◌, ◌-◌, ◌≤◌, ◌<◌, ◌≡◌, refl, sym, subst, ap, ◌∙◌, true, false, Option, none, some,
  List, [], ◌∷◌, arith, if◌then◌else◌, ◌==◌, length,
}
use native.Mathlib.Decide.{dec_lt}
use urx.Base.Errors.{Error}
use urx.Panix.Recover.{safe}
use urx.Retryx.Config.{Config, RetryOption, new_config, op_or_default}
use urx.Retryx.Loop.{
  Attempt, Tried, Surroundings, Act, called, slept, Verdict, finish, again, err_exhausted,
  fire_on_retry, is_retryable, after_failure, judge, round, extend, loop, do_retry,
}
use urx.Retryx.Delays.{delay_after}
use urx.Retryx.Outcomes.{attempts}

-- The attempt with number `n` ends in `ends n`.
pub record IsCalm {ℓ} {A : Type ℓ} (zero_value : A) (cfg : Config) (fn : Attempt → Tried A)
    (around : ℕ → Surroundings) (ends : ℕ → A × Option Error) : Type ℓ where
  pub no_predicate : cfg.retry_if ≡ none
  pub no_hook : cfg.on_retry ≡ none
  pub no_budget : cfg.max_elapsed ≡ 0
  pub live_head : (i : ℕ) → (around i).ctx_head ≡ none
  pub live_after : (i : ℕ) → (around i).ctx_after ≡ none
  pub live_sleep : (i : ℕ) → (around i).ctx_sleep ≡ none
  pub stays : (rc : Attempt) → (fn rc).aborts ≡ false
  pub ending : (rc : Attempt) → safe zero_value (op_or_default cfg) (fn rc).outcome ≡ ends rc.number

abbrev pub Fails {ℓ} : {A : Type ℓ} → A × Option Error → Type 0
Fails (v, none) = ⊥
Fails (v, some err) = Unit

failed {ℓ} :
    {A : Type ℓ} (r : A × Option Error) → Fails r → (v : A) × (err : Error) × (r ≡ (v, some err))
failed (v, none) h = absurd h
failed (v, some err) h = (v, err, refl)

module _ {ℓ} {A : Type ℓ} (zero_value : A) (cfg : Config) (fn : Attempt → Tried A)
    (around : ℕ → Surroundings) (ends : ℕ → A × Option Error)
    (calm : IsCalm zero_value cfg fn around ends) where
  abbrev attempt_of : ℕ → Option Error → Attempt
  attempt_of i last = record { number = i + 1; last_err = last }

  abbrev pause_of : ℕ → Error → ℕ
  pause_of i err = delay_after cfg (around i).random (i + 1) err i (around i).delay_at

  abbrev attach : ℕ → Option Error → List Act × Verdict A → List Act × Verdict A
  attach i last (acts, verdict) = (called (attempt_of i last) ∷ acts, verdict)

  round-judge :
      (i : ℕ) (last : Option Error)
      → round zero_value cfg fn (around i) i last
        ≡ attach i last (judge zero_value cfg (around i) i false (ends (i + 1)))
  unfolding round
  round-judge i last =
      let rc : Attempt = record { number = i + 1; last_err = last } in
      ground (arith, calm.live_head i, calm.stays rc, calm.ending rc)

  failure_goes_on :
      (i : ℕ) (err : Error)
      → after_failure zero_value cfg (around i) i false err ≡ (
          if i + 1 == cfg.max_attempts
          then ([], finish zero_value (some (err_exhausted cfg.max_attempts err)))
          else (slept (pause_of i err) ∷ [], again err))
  unfolding after_failure fire_on_retry is_retryable
  failure_goes_on i err = ground (arith, calm.live_after i, calm.live_sleep i)

  abbrev loop_from : ℕ → ℕ → Option Error → List Act × A × Option Error
  loop_from left i last = loop zero_value cfg fn around left i last

  abbrev continue : ℕ → ℕ → List Act × Verdict A → List Act × A × Option Error
  continue left i x = extend zero_value cfg x (λ err. loop_from left (suc i) (some err))

  -- A pass over an attempt that ends in `r`.
  loop_step :
      (left i : ℕ) (last : Option Error) (r : A × Option Error)
      → ends (i + 1) ≡ r
      → loop_from (suc left) i last
        ≡ continue left i (attach i last (judge zero_value cfg (around i) i false r))
  unfolding loop
  loop_step left i last r e =
      ap (continue left i)
        (round-judge i last ∙ ap (λ x. attach i last (judge zero_value cfg (around i) i false x)) e)

  loop_again :
      (left i : ℕ) (last : Option Error) (v : A) (err : Error)
      → ends (i + 1) ≡ (v, some err)
      → (i + 1 == cfg.max_attempts) ≡ false
      → loop_from (suc left) i last
        ≡ continue left i (called (attempt_of i last) ∷ slept (pause_of i err) ∷ [], again err)
  loop_again left i last v err e more =
      loop_step left i last (v, some err) e
      ∙ ap (λ x. continue left i (attach i last x))
          (failure_goes_on i err
            ∙ ap
                (λ b.
                  if b
                  then ([], finish zero_value (some (err_exhausted cfg.max_attempts err)))
                  else (slept (pause_of i err) ∷ [], again err))
                more)

  loop_last :
      (left i : ℕ) (last : Option Error) (v : A) (err : Error)
      → ends (i + 1) ≡ (v, some err)
      → (i + 1 == cfg.max_attempts) ≡ true
      → loop_from (suc left) i last
        ≡ (called (attempt_of i last) ∷ [], zero_value, some (err_exhausted cfg.max_attempts err))
  loop_last left i last v err e at_last =
      loop_step left i last (v, some err) e
      ∙ ap (λ x. continue left i (attach i last x))
          (failure_goes_on i err
            ∙ ap
                (λ b.
                  if b
                  then ([], finish zero_value (some (err_exhausted cfg.max_attempts err)))
                  else (slept (pause_of i err) ∷ [], again err))
                at_last)

  -- From index `i` on: the value `val`, the error `err`, and attempts up to the number `m`.
  abbrev Ends : ℕ → ℕ → A → Option Error → List Act × A × Option Error → Type ℓ
  Ends i m val err (acts, v, e) = (v ≡ val) × (e ≡ err) × (length (attempts acts) + i ≡ m)

  loop_succeeds :
      (left i m : ℕ) (last : Option Error) (val : A)
      → i + left ≡ cfg.max_attempts
      → i < m
      → m ≤ cfg.max_attempts
      → ((n : ℕ) → i < n → n < m → Fails (ends n))
      → ends m ≡ (val, none)
      → Ends i m val none (loop_from left i last)
  loop_succeeds zero i m last val p q r f s = absurd (omega arith)
  loop_succeeds (suc left) i m last val p q r f s = elim (dec_lt (i + 1) m) [
    | no h ↦
        let e : i + 1 ≡ m = omega arith in
        subst (Ends i m val none) (sym (loop_step left i last (val, none) (ap ends e ∙ s)))
          (refl, refl, omega arith)
    | yes h ↦
        let (v, err, e) = failed (ends (i + 1)) (f (i + 1) (omega arith) h) in
        let more : (i + 1 == cfg.max_attempts) ≡ false = ground arith in
        let ih =
          loop_succeeds left (suc i) m (some err) val (omega arith) (omega arith) r
            (λ n a b. f n (omega arith) b) s in
        subst (Ends i m val none) (sym (loop_again left i last v err e more))
          (ih.0, ih.1, omega (arith, ih.2))
  ]

  loop_exhausts :
      (left i : ℕ) (last : Option Error) (v : A) (err : Error)
      → i + suc left ≡ cfg.max_attempts
      → ((n : ℕ) → i < n → n < cfg.max_attempts → Fails (ends n))
      → ends cfg.max_attempts ≡ (v, some err)
      → Ends i cfg.max_attempts zero_value
          (some (err_exhausted cfg.max_attempts err))
          (loop_from (suc left) i last)
  loop_exhausts zero i last v err p f s =
      let e : i + 1 ≡ cfg.max_attempts = omega arith in
      let at_last : (i + 1 == cfg.max_attempts) ≡ true = ground arith in
      subst (Ends i cfg.max_attempts zero_value (some (err_exhausted cfg.max_attempts err)))
        (sym (loop_last zero i last v err (ap ends e ∙ s) at_last)) (refl, refl, omega arith)
  loop_exhausts (suc left) i last v err p f s =
      let (v', err', e) = failed (ends (i + 1)) (f (i + 1) (omega arith) (omega arith)) in
      let more : (i + 1 == cfg.max_attempts) ≡ false = ground arith in
      let ih =
        loop_exhausts left (suc i) (some err') v err (omega arith) (λ n a b. f n (omega arith) b)
          s in
      subst (Ends i cfg.max_attempts zero_value (some (err_exhausted cfg.max_attempts err)))
        (sym (loop_again (suc left) i last v' err' e more)) (ih.0, ih.1, omega (arith, ih.2))

max_attempts_pos : (opts : List (Option RetryOption)) → 0 < (new_config opts).max_attempts
unfolding new_config
max_attempts_pos opts = ground arith

module _ {ℓ} {A : Type ℓ} (zero_value : A) (fn : Attempt → Tried A) (around : ℕ → Surroundings)
    (opts : List (Option RetryOption)) (ends : ℕ → A × Option Error)
    (calm : IsCalm zero_value (new_config opts) fn around ends) where
  -- Where nothing but the attempts decides: if the attempts before the one with number `m` fail and
  -- that one succeeds, within the configured number, `Do` makes just `m` attempts and returns the
  -- value of the last.
  pub do_retry_first_success :
      (m : ℕ) (val : A)
      → 0 < m
      → m ≤ (new_config opts).max_attempts
      → ((n : ℕ) → 0 < n → n < m → Fails (ends n))
      → ends m ≡ (val, none)
      → let (acts, v, e) = do_retry zero_value (some fn) around opts in
        (v ≡ val) × (e ≡ none) × (length (attempts acts) ≡ m)
  unfolding do_retry
  do_retry_first_success m val p q f s =
      let cfg = new_config opts in
      let r =
        loop_succeeds zero_value cfg fn around ends calm cfg.max_attempts 0 m none val (omega arith)
          p q f s in
      (r.0, r.1, omega (arith, r.2))

  -- Where nothing but the attempts decides: if all attempts fail, `Do` makes as many as configured
  -- and returns the zero value and `ErrExhausted` around their number and the last attempt's error.
  pub do_retry_all_fail :
      (v : A) (err : Error)
      → ((n : ℕ) → 0 < n → n < (new_config opts).max_attempts → Fails (ends n))
      → ends (new_config opts).max_attempts ≡ (v, some err)
      → let (acts, v, e) = do_retry zero_value (some fn) around opts in
        (v ≡ zero_value)
        × (e ≡ some (err_exhausted (new_config opts).max_attempts err))
        × (length (attempts acts) ≡ (new_config opts).max_attempts)
  unfolding do_retry
  do_retry_all_fail v err f s =
      let cfg = new_config opts in
      let pos = max_attempts_pos opts in
      let e : suc (cfg.max_attempts - 1) ≡ cfg.max_attempts = omega (arith, pos) in
      let r =
        subst
          (λ k.
            Ends zero_value cfg fn around ends calm 0 cfg.max_attempts zero_value
              (some (err_exhausted cfg.max_attempts err)) (loop zero_value cfg fn around k 0 none))
          e
          (loop_exhausts zero_value cfg fn around ends calm (cfg.max_attempts - 1) 0 none v err
            (omega (arith, pos)) f s) in
      (r.0, r.1, omega (arith, r.2))
