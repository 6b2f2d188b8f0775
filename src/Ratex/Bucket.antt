-- ===== src/Ratex/Bucket.antt =====
-- ratex/ratex.go: the bucket and its checks that do not block. `now` is the clock's reading.
use urx.Base.{
  ℕ, ◌+◌, ◌-◌, ◌*◌, min, max, Bool, true, false, Option, List, if◌then◌else◌, ltb, leb, u64,
}
use urx.Base.Int.{ℤ, pos_part}
use urx.Ratex.Config.{LimiterOption, new_config}
use urx.Ratex.Types.{Limiter, Stats, grain, capacity}

unfoldable pub new : ℕ → List (Option LimiterOption) → Limiter
new now opts =
    let cfg = new_config opts in
    record { cfg = cfg; tokens = capacity cfg; last_update = now; allowed = 0; limited = 0 }

unfoldable pub refill : ℕ → Limiter → Limiter
refill now l =
    let add = (now - l.last_update) * l.cfg.rate_num in
    if leb now l.last_update
    then l
    else if ltb 0 add
    then record l { tokens = min (capacity l.cfg) (l.tokens + add); last_update = now }
    else l

-- `n` is in grains; the result is whether they were taken, and the balance.
unfoldable pub take : ℕ → ℕ → Limiter → Limiter × Bool × ℕ
take now n l =
    let l' = refill now l in
    if leb n l'.tokens
    then (record l' { tokens = l'.tokens - n }, true, l'.tokens - n)
    else (l', false, l'.tokens)

-- `if n < 1 { n = 1 }`
abbrev pub at_least_one : ℤ → ℕ
at_least_one n = max 1 (pos_part n)

abbrev pub count_allowed : Limiter → Limiter
count_allowed l = record l { allowed = u64 (l.allowed + 1) }

unfoldable pub count_limited : Limiter → Limiter
count_limited l = record l { limited = u64 (l.limited + 1) }

unfoldable pub allow_n : ℕ → ℤ → Limiter → Limiter × Bool
unfolding count_limited
allow_n now n l =
    let (l', ok, _) = take now (at_least_one n * grain l.cfg) l in
    if ok then (count_allowed l', true) else (count_limited l', false)

-- `n` is in grains.
unfoldable pub refund : ℕ → Limiter → Limiter
refund n l = record l {
  tokens = min (capacity l.cfg) (l.tokens + n);
  allowed = if ltb 0 l.allowed then l.allowed - 1 else l.allowed;
}

abbrev pub release : ℕ → Limiter → Limiter
release n l = refund n l

unfoldable pub get_tokens : ℕ → Limiter → Limiter × ℕ
get_tokens now l = let l' = refill now l in (l', l'.tokens)

unfoldable pub stats : ℕ → Limiter → Limiter × Stats
stats now l =
    let l' = refill now l in
    (
      l',
      record {
        rate_num = l'.cfg.rate_num;
        rate_den = l'.cfg.rate_den;
        burst = l'.cfg.burst;
        tokens = l'.tokens;
        allowed = l'.allowed;
        limited = l'.limited;
      },
    )

unfoldable pub reset_stats : Limiter → Limiter
reset_stats l = record l { allowed = 0; limited = 0 }

unfoldable pub reset : ℕ → Limiter → Limiter
reset now l = record l { tokens = capacity l.cfg; last_update = now }
