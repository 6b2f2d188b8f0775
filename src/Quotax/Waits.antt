-- ===== src/Quotax/Waits.antt =====
-- quotax/quotax.go: `AllowOrError`, and the blocking calls. What happens around the loop is a list of
-- rounds: what the context says at each look, the clock's readings, and the operations of other
-- goroutines while this one sleeps. A list that ends leaves the call waiting.
use urx.Base.{ℕ, ◌+◌, ◌*◌, Bool, true, false, Option, none, some, List, [], ◌∷◌, if◌then◌else◌, ltb}
use urx.Base.Errors.{
  Error, sentinel, wrap, quotax, ratex, closed, cancelled, max_keys_reached, rate_limited,
  exceeds_burst,
}
use urx.Base.Int.{ℤ, pos}
use urx.Ratex.Bucket.{allow_n, at_least_one, get_tokens, release}
use urx.Ratex.Types.{Limiter, grain}
use urx.Ratex.Wait.{delay}
use urx.Quotax.Table.{Bucket, find}
use urx.Quotax.Quota.{Quota, record_ok, write, get_or_create, bucket_for_wait, unpin}
use urx.Quotax.Ops.{QuotaOp, run}

abbrev pub err_cancelled : Error → Error
err_cancelled cause = wrap (sentinel quotax cancelled) cause

-- The case of the `select` in which the sleep ends; the timer's case looks at the context again.
pub data Wake : Type 0 where
  by_ctx : Error → Wake
  by_close : Wake
  by_timer : Option Error → Wake

pub record Round {ℓ} (K : Type ℓ) : Type ℓ where
  pub before : Option Error  -- `ctx.Err()` at the head of the loop
  pub take_at : ℕ
  pub after : Option Error  -- `ctx.Err()` after tokens were taken
  pub read_at : ℕ  -- the clock at `Tokens`, for the delay or for the result
  pub others : List (QuotaOp K)
  pub wake : Wake

-- `still_waiting` is a call that has not come back yet.
pub data Admission : Type 0 where
  still_waiting : Admission
  admitted : ℕ → Bool → Admission
  turned_away : Error → Admission

module _ {ℓ} {K : Type ℓ} where
  abbrev pub turn_away : Error → Quota K → Quota K × Admission
  turn_away e q = (record_ok false q, turned_away e)

  -- A look at the context; `next` is what follows if it is live.
  abbrev pub looked : Option Error → Quota K × Admission → Quota K → Quota K × Admission
  looked (some cause) next q = turn_away (err_cancelled cause) q
  looked none next q = next

  module _ (same : K → K → Bool) where
    -- `AllowOrError`, by the bucket it got.
    abbrev pub verdict : ℕ → K → Quota K × Option Bucket → Quota K × Option Error
    verdict now key (q, none) = (record_ok false q, some (sentinel quotax max_keys_reached))
    verdict now key (q, some b) =
        let (l, ok) = allow_n now (pos 1) b.limiter in
        let err = if ok then none else some (sentinel quotax rate_limited) in
        (record_ok ok (write same key (record b { limiter = l }) q), err)

    unfoldable pub allow_or_error : ℕ → K → Quota K → Quota K × Option Error
    unfolding get_or_create
    allow_or_error now key q =
        if q.is_shut
        then (q, some (sentinel quotax closed))
        else verdict now key (get_or_create same now key q)

    abbrev pub write_limiter : K → Limiter → Bucket → Quota K → Quota K
    write_limiter key l b q = write same key (record b { limiter = l }) q

    -- Tokens were taken; with the context's error after it.
    abbrev pub granted : Option Error → ℕ → ℕ → Bool → K → Bucket → Quota K → Quota K × Admission
    granted (some cause) now n waited key b q =
        turn_away (err_cancelled cause)
          (write_limiter key (release (n * grain b.limiter.cfg) b.limiter) b q)
    granted none now n waited key b q =
        let (l, rem) = get_tokens now b.limiter in
        (record_ok true (write_limiter key l b q), admitted rem waited)

    -- The end of a sleep; `again` is the rest of the loop.
    abbrev pub woken : Wake → Quota K × Admission → Quota K → Quota K × Admission
    woken (by_ctx cause) again q = turn_away (err_cancelled cause) q
    woken by_close again q =
        if q.is_shut then turn_away (sentinel quotax closed) q else (q, still_waiting)
    woken (by_timer (some cause)) again q = turn_away (err_cancelled cause) q
    woken (by_timer none) again q = again

    module _ (hash : K → ℕ) where
      -- The bucket is in the table as long as it is pinned.
      unfoldable pub wait_loop : ℕ → Bool → K → List (Round K) → Quota K → Quota K × Admission
      wait_loop n waited key [] q = (q, still_waiting)
      wait_loop n waited key (r ∷ rs) q = elim r.before [
        | some cause ↦
            if q.is_shut
            then turn_away (sentinel quotax closed) q
            else turn_away (err_cancelled cause) q
        | none ↦ elim (find same key q.entries) [
          | none ↦ if q.is_shut then turn_away (sentinel quotax closed) q else (q, still_waiting)
          | some b ↦
              let (l, ok) = allow_n r.take_at (pos n) b.limiter in
              let b' = record b { last_access = r.take_at; limiter = l } in
              let taken = write same key b' q in
              let read = (delay r.read_at (n * grain l.cfg) l).0 in
              let slept = run same hash r.others (write_limiter key read b' taken) in
              let again = wait_loop n true key rs slept in
              if q.is_shut
              then turn_away (sentinel quotax closed) q
              else (if ok
                  then granted r.after r.read_at n waited key b' taken
                  else woken r.wake again slept)
        ]
      ]

      abbrev pub pin_at : K → Option Bucket → Quota K → Quota K
      pin_at key none q = q
      pin_at key (some b) q = write same key (record b { pins = b.pins + 1 }) q

      -- The deferred unpin, when the call comes back.
      abbrev pub unpinned : K → Quota K × Admission → Quota K × Admission
      unpinned key (q, still_waiting) = (q, still_waiting)
      unpinned key (q, admitted remaining waited) = (unpin same key q, admitted remaining waited)
      unpinned key (q, turned_away e) = (unpin same key q, turned_away e)

      -- `waitForOnBucket`; `look` is `ctx.Err()` before the loop.
      unfoldable pub wait_for_on_bucket :
          ℤ → Option Error → K → List (Round K) → Quota K → Quota K × Admission
      unfolding wait_loop unpin
      wait_for_on_bucket n look key rs q =
          let q' = pin_at key (find same key q.entries) q in
          if ltb q.cfg.burst (at_least_one n)
          then turn_away (sentinel ratex exceeds_burst) q
          else unpinned key (
              if q.is_shut
              then (q', turned_away (sentinel quotax closed))
              else looked look (wait_loop (at_least_one n) false key rs q') q')

      -- `waitFor` from the bucket on.
      abbrev pub wait_with :
          ℤ → Option Error → K → List (Round K) → Quota K × Option Bucket → Quota K × Admission
      wait_with n look key rs (q, none) = (q, turned_away (sentinel quotax max_keys_reached))
      wait_with n look key rs (q, some b) = unpinned key (wait_for_on_bucket n look key rs q)

      -- `first` and `look` are `ctx.Err()` at the two looks before the loop.
      unfoldable pub wait_for :
          ℕ → ℤ → Option Error → Option Error → K → List (Round K) → Quota K → Quota K × Admission
      unfolding wait_for_on_bucket unpin bucket_for_wait
      wait_for now n first look key rs q =
          if ltb q.cfg.burst (at_least_one n)
          then turn_away (sentinel ratex exceeds_burst) q
          else (if q.is_shut
              then (q, turned_away (sentinel quotax closed))
              else looked first (wait_with n look key rs (bucket_for_wait same now key q)) q)
