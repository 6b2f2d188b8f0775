-- ===== src/Quotax/Execute.antt =====
-- quotax/quotax.go: `Execute` and `TryExecute`. A callback sees its controller; while it runs, it and
-- others may use the quota.
use urx.Base.{ℕ, String, Bool, true, false, Option, none, some, List, if◌then◌else◌}
use urx.Base.Errors.{Error, sentinel, quotax, nil_func, closed, max_keys_reached}
use urx.Base.Int.{pos}
use urx.Panix.Recover.{Outcome, safe}
use urx.Ratex.Bucket.{allow_n, get_tokens, release}
use urx.Ratex.Types.{grain}
use urx.Ratex.Execute.{Called, pending, done}
use urx.Quotax.Table.{Bucket, find}
use urx.Quotax.Quota.{Quota, record_ok, write, touched, bucket_for_wait, unpin, rollback_allowed}
use urx.Quotax.Waits.{
  Round, Admission, still_waiting, admitted, turned_away, err_cancelled, write_limiter,
  wait_for_on_bucket,
}

-- The `execution` behind a `QuotaController`.
pub record Execution {ℓ} (K : Type ℓ) : Type ℓ where
  pub key : K
  pub tokens : ℕ
  pub rate_num : ℕ
  pub rate_den : ℕ
  pub burst : ℕ
  pub waited : Bool
  pub skip_token : Bool

-- One run of a callback: the quota afterwards, whether it called `SkipToken`, and how it ends.
pub record Effect {ℓ κ} (K : Type ℓ) (A : Type κ) : Type (ℓ ⊔ κ) where
  pub quota : Quota K
  pub skips : Bool
  pub outcome : Outcome A

abbrev pub Fn {ℓ κ} : Type ℓ → Type κ → Type (ℓ ⊔ κ)
Fn K A = Execution K → Quota K → Effect K A

module _ {ℓ κ} {K : Type ℓ} {A : Type κ} (same : K → K → Bool) (zero_value : A) where
  -- One token given back, and the call taken out of the statistics.
  unfoldable pub refund_token : K → Option Bucket → Quota K → Quota K
  unfolding rollback_allowed
  refund_token key none q = rollback_allowed q
  refund_token key (some b) q =
      rollback_allowed (write_limiter same key (release (grain b.limiter.cfg) b.limiter) b q)

  -- `runAfterAdmit`, with the bucket that the key has in the table while it is pinned.
  unfoldable pub run_after_admit :
      Bucket → K → ℕ → Bool → String → Fn K A → Quota K → Quota K × A × Option Error
  unfolding refund_token
  run_after_admit b key remaining waited op fn q =
      let ran =
        fn
          (record {
            key = key;
            tokens = remaining;
            rate_num = b.limiter.cfg.rate_num;
            rate_den = b.limiter.cfg.rate_den;
            burst = b.limiter.cfg.burst;
            waited = waited;
            skip_token = false;
          })
          q in
      let (val, err) = safe zero_value op ran.outcome in
      (
        if ran.skips
            then refund_token key (find same key ran.quota.entries) ran.quota
            else ran.quota,
        val,
        err,
      )

  module _ (hash : K → ℕ) where
    -- `Execute` from the end of its wait on, up to the unpin.
    abbrev pub after_wait :
        ℕ → K → Option Bucket → Quota K × Admission → Fn K A → Quota K × Called A
    after_wait now key o (q, still_waiting) fn = (q, pending)
    after_wait now key o (q, turned_away e) fn = (unpin same key q, done zero_value (some e))
    after_wait now key none (q, admitted remaining waited) fn = (q, pending)
    after_wait now key (some b) (q, admitted remaining waited) fn =
        let (q', val, err) =
          run_after_admit b key remaining waited "quotax.Execute" fn
            (write same key (touched same now b) q) in
        (unpin same key q', done val err)

    abbrev pub execute_with :
        ℕ
        → Option Error
        → K
        → List (Round K)
        → Fn K A
        → Quota K × Option Bucket
        → Quota K × Called A
    execute_with now look key rs fn (q, none) =
        (q, done zero_value (some (sentinel quotax max_keys_reached)))
    execute_with now look key rs fn (q, some b) =
        let (q', a) = wait_for_on_bucket same hash (pos 1) look key rs q in
        after_wait now key (find same key q'.entries) (q', a) fn

    -- `first` and `look` are `ctx.Err()` at the two looks before the loop, and `now` and `later` the
    -- clock before and after it.
    unfoldable pub execute :
        ℕ
        → ℕ
        → Option Error
        → Option Error
        → K
        → List (Round K)
        → Option (Fn K A)
        → Quota K
        → Quota K × Called A
    unfolding run_after_admit unpin wait_for_on_bucket bucket_for_wait
    execute now later first look key rs none q =
        (q, done zero_value (some (sentinel quotax nil_func)))
    execute now later first look key rs (some fn) q =
        if q.is_shut then (q, done zero_value (some (sentinel quotax closed))) else elim first [
          | some cause ↦ (record_ok false q, done zero_value (some (err_cancelled cause)))
          | none ↦ execute_with later look key rs fn (bucket_for_wait same now key q)
        ]

    -- `TryExecute` with its bucket, up to the unpin; `after` is `ctx.Err()` after the token was taken.
    abbrev pub try_with :
        ℕ → Option Error → K → Fn K A → Quota K × Option Bucket → Quota K × Bool × A × Option Error
    try_with now after key fn (q, none) =
        (q, false, zero_value, some (sentinel quotax max_keys_reached))
    try_with now after key fn (q, some b) =
        let (l, ok) = allow_n now (pos 1) b.limiter in
        let taken = write_limiter same key l b q in
        if ok
        then elim after [
          | some cause ↦ (
            unpin same key (record_ok false (write_limiter same key (release (grain l.cfg) l) b q)),
            false,
            zero_value,
            some (err_cancelled cause),
          )
          | none ↦
              let (l', remaining) = get_tokens now l in
              let b' = record b { limiter = l'; last_access = now } in
              let (q', val, err) =
                run_after_admit b' key remaining false "quotax.TryExecute" fn
                  (record_ok true (write same key b' q)) in
              (unpin same key q', true, val, err)
        ]
        else (unpin same key (record_ok false taken), false, zero_value, none)

    unfoldable pub try_execute :
        ℕ
        → Option Error
        → Option Error
        → K
        → Option (Fn K A)
        → Quota K
        → Quota K × Bool × A × Option Error
    unfolding run_after_admit unpin bucket_for_wait
    try_execute now before after key none q =
        (q, false, zero_value, some (sentinel quotax nil_func))
    try_execute now before after key (some fn) q =
        if q.is_shut then (q, false, zero_value, some (sentinel quotax closed)) else elim before [
          | some cause ↦ (q, false, zero_value, some (err_cancelled cause))
          | none ↦ try_with now after key fn (bucket_for_wait same now key q)
        ]
