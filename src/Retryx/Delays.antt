-- ===== src/Retryx/Delays.antt =====
-- retryx/retryx.go: the delay before the next attempt. Go's float arithmetic is exact here, and
-- `rand.Float64()` is `random / 2 ^ 53` for a number below 2 ^ 53, as the library makes it. A delay
-- of 0 or below does not sleep, so it is 0 here.
use urx.Base.{ℕ, ◌+◌, ◌-◌, ◌*◌, ◌/◌, ◌^◌, none, some, if◌then◌else◌, ltb}
use urx.Base.Errors.{Error}
use urx.Base.Int.{pos_part}
use urx.Retryx.Config.{Config, JitterMode, multiplicative, off, equal}

-- 2 ^ 52 and 2 ^ 53: a half and a whole of the fraction that `random` stands for.
abbrev pub half : ℕ
half = 4503599627370496

abbrev pub whole : ℕ
whole = 9007199254740992

-- The delay before jitter.
unfoldable pub capped : Config → ℕ → ℕ
capped cfg i = let d = cfg.backoff * 2 ^ i in if ltb cfg.max_backoff d then cfg.max_backoff else d

unfoldable pub jitter : JitterMode → ℕ → ℕ → ℕ
jitter equal random d = (d * whole + d * random) / (2 * whole)
jitter multiplicative random d = (d * half + d * random) / whole
jitter off random d = d

unfoldable pub backoff : Config → ℕ → ℕ → ℕ
unfolding capped jitter
backoff cfg random i = jitter cfg.jitter_mode random (capped cfg i)

-- `elapsed` is the time since the start when the delay is computed.
unfoldable pub delay_after : Config → ℕ → ℕ → Error → ℕ → ℕ → ℕ
unfolding backoff
delay_after cfg random attempt err i elapsed =
    let d : ℕ = elim cfg.delay_func [
      | some fn ↦ pos_part (fn attempt err)
      | none ↦ backoff cfg random i
    ] in
    if ltb 0 cfg.max_elapsed
    then (let remaining = cfg.max_elapsed - elapsed in if ltb remaining d then remaining else d)
    else d
