-- ===== src/Ratex/Wait.antt =====
-- ratex/ratex.go: `waitFor`, the loop behind `Wait`, `WaitN` and `Execute`. What happens around the
-- loop is a list of rounds: what the context says at each look, the clock's readings, and what other
-- callers do to the limiter while this one sleeps. A list that ends leaves the call waiting.
use urx.Base.{
  ℕ, ◌-◌, ◌*◌, ◌/◌, Bool, true, false, Option, none, some, List, [], ◌∷◌, if◌then◌else◌, ltb, leb,
}
use urx.Base.Errors.{Error, sentinel, wrap, ratex, exceeds_burst, cancelled}
use urx.Base.Int.{ℤ, pos}
use urx.Ratex.Bucket.{refill, take, refund, count_limited, count_allowed, at_least_one}
use urx.Ratex.Types.{Limiter, WaitResult, grain}

-- A millisecond.
abbrev pub min_delay : ℕ
min_delay = 1_000_000

-- The sleep before the next try, with the limiter refilled; `n` is in grains.
unfoldable pub delay : ℕ → ℕ → Limiter → Limiter × ℕ
delay now n l =
    let l' = refill now l in
    let d = (n - l'.tokens) / l'.cfg.rate_num in
    (l', if leb n l'.tokens then min_delay else if ltb d min_delay then min_delay else d)

pub record Round : Type 0 where
  pub before : Option Error  -- `ctx.Err()` at the head of the loop
  pub take_at : ℕ
  pub after : Option Error  -- `ctx.Err()` after tokens were taken
  pub delay_at : ℕ
  pub others : Limiter → Limiter
  pub wake : Option Error  -- the context's error when the sleep ends, if it is done

pub data Waited : Type 0 where
  waiting : Waited
  acquired : WaitResult → Waited
  refused : Error → Waited

abbrev pub err_cancelled : Error → Error
err_cancelled cause = wrap (sentinel ratex cancelled) cause

-- The sleep of a round and what follows; `again` is the rest of the loop.
abbrev pub sleep : Option Error → Limiter × Waited → Limiter → Limiter × Waited
sleep none again l = again
sleep (some cause) again l = (count_limited l, refused (err_cancelled cause))

-- A take that succeeded, with the context's error after it.
abbrev pub taken : Option Error → ℕ → WaitResult → Limiter → Limiter × Waited
taken none need res l = (l, acquired res)
taken (some cause) need res l = (count_limited (refund need l), refused (err_cancelled cause))

-- `need` is in grains.
unfoldable pub wait_loop : ℕ → Bool → List Round → Limiter → Limiter × Waited
unfolding delay
wait_loop need waited [] l = (l, waiting)
wait_loop need waited (r ∷ rs) l = elim r.before [
  | some cause ↦ (count_limited l, refused (err_cancelled cause))
  | none ↦
      let (l', ok, rem) = take r.take_at need l in
      let slept = r.others (delay r.delay_at need l').0 in
      let again = wait_loop need true rs slept in
      if ok
      then taken r.after need (record { remaining = rem; waited = waited }) (count_allowed l')
      else sleep r.wake again slept
]

unfoldable pub wait_for : List Round → ℤ → Limiter → Limiter × Waited
unfolding wait_loop
wait_for rs n l =
    if ltb l.cfg.burst (at_least_one n)
    then (count_limited l, refused (sentinel ratex exceeds_burst))
    else wait_loop (at_least_one n * grain l.cfg) false rs l

unfoldable pub acquire : List Round → Limiter → Limiter × Waited
acquire rs l = wait_for rs (pos 1) l
