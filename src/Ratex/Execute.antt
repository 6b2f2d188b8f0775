-- ===== src/Ratex/Execute.antt =====
-- ratex/ratex.go: `Execute` and `TryExecute`. A callback sees its controller; while it runs, it and
-- others may use the limiter.
use urx.Base.{ℕ, String, Bool, true, false, Option, none, some, List, if◌then◌else◌}
use urx.Base.Errors.{Error, sentinel, ratex, nil_func}
use urx.Panix.Recover.{Outcome, safe}
use urx.Ratex.Bucket.{take, refund, count_allowed, count_limited}
use urx.Ratex.Types.{Limiter, Execution, grain}
use urx.Ratex.Wait.{Round, Waited, waiting, acquired, refused, err_cancelled, acquire}

-- One run of a callback: the limiter afterwards, whether it called `SkipToken`, and how it ends.
pub record Effect {ℓ} (A : Type ℓ) : Type ℓ where
  pub limiter : Limiter
  pub skips : Bool
  pub outcome : Outcome A

-- `waiting` is a call that has not come back yet.
pub data Called {ℓ} (A : Type ℓ) : Type ℓ where
  pending : Called A
  done : A → Option Error → Called A

module _ {ℓ} {A : Type ℓ} (zero_value : A) where
  unfoldable pub run :
      String → Bool → ℕ → (Execution → Limiter → Effect A) → Limiter → Limiter × A × Option Error
  run op waited remaining fn l =
      let ran =
        fn
          (record {
            tokens = remaining;
            rate_num = l.cfg.rate_num;
            rate_den = l.cfg.rate_den;
            burst = l.cfg.burst;
            waited = waited;
            skip_token = false;
          })
          l in
      let (val, err) = safe zero_value op ran.outcome in
      (if ran.skips then refund (grain ran.limiter.cfg) ran.limiter else ran.limiter, val, err)

  after_wait : Limiter × Waited → (Execution → Limiter → Effect A) → Limiter × Called A
  unfolding run
  after_wait (l, waiting) fn = (l, pending)
  after_wait (l, refused e) fn = (l, done zero_value (some e))
  after_wait (l, acquired res) fn =
      let (l', val, err) = run "ratex.Execute" res.waited res.remaining fn l in (l', done val err)

  unfoldable pub execute :
      List Round → Option (Execution → Limiter → Effect A) → Limiter → Limiter × Called A
  unfolding after_wait
  execute rs none l = (l, done zero_value (some (sentinel ratex nil_func)))
  execute rs (some fn) l = after_wait (acquire rs l) fn

  -- `before` and `after` are `ctx.Err()` at the two looks.
  unfoldable pub try_execute :
      ℕ
      → Option Error
      → Option Error
      → Option (Execution → Limiter → Effect A)
      → Limiter
      → Limiter × Bool × A × Option Error
  try_execute now before after none l = (l, false, zero_value, some (sentinel ratex nil_func))
  try_execute now before after (some fn) l = elim before [
    | some cause ↦ (l, false, zero_value, some (err_cancelled cause))
    | none ↦
        let (l', ok, remaining) = take now (grain l.cfg) l in
        if ok
        then elim after [
          | some cause ↦ (
            count_limited (refund (grain l.cfg) (count_allowed l')),
            false,
            zero_value,
            some (err_cancelled cause),
          )
          | none ↦
              let (l'', val, err) = run "ratex.TryExecute" false remaining fn (count_allowed l') in
              (l'', true, val, err)
        ]
        else (count_limited l', false, zero_value, none)
  ]
