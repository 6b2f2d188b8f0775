-- ===== src/Adaptx/Control.antt =====
-- adaptx/adaptx.go: the control laws, and the change of the limit. Where the code subtracts floats
-- and compares, the subtracted term stands on the other side of the comparison.
use urx.Base.{
  ℕ, zero, suc, ◌+◌, ◌-◌, ◌*◌, ◌/◌, min, ◌&&◌, ◌||◌, Option, none, some, if◌then◌else◌, ltb, leb,
  ◌==◌, u64,
}
use urx.Base.Floats.{round_float}
use urx.Base.Fractions.{
  Fraction, whole, half, plus, minus, times, over, is_below, is_at_most, trunc, ceil,
}
use urx.Adaptx.Config.{Config, Algorithm, by_aimd, by_vegas, by_gradient, unknown}
use urx.Adaptx.Types.{Limiter, WindowSnap, Draw}

-- `int(float64(l.limit) * l.cfg.decreaseRatio)`
abbrev pub cut : Limiter → ℕ
cut l = trunc (times (whole l.limit) l.cfg.decrease_ratio)

-- The whole steps in the credit, which it gives up; the subtraction is exact in float64.
abbrev pub grow : ℕ → Limiter → Limiter × ℕ
grow credit l =
    let step = credit / l.cfg.increase_rate.den in
    (record l { increase_credit = credit - step * l.cfg.increase_rate.den }, l.limit + step)

-- The credit and the rate are counted in parts of a permit, `increase_rate.den` of them, which is a
-- power of two for a float64; their sum is rounded as float64 rounds it.
unfoldable pub aimd : WindowSnap → Limiter → Limiter × ℕ
unfolding round_float
aimd snap l =
    if ltb 0 snap.fails
    then (record l { increase_credit = 0 }, cut l)
    else (if ltb snap.max_in_flight (ceil (times (whole l.limit) l.cfg.utilization))
        then (l, l.limit)
        else grow (round_float (l.increase_credit + l.cfg.increase_rate.num)) l)

-- `float64(l.limit) * l.cfg.tolerance`, scaled where the target is above the minimum.
abbrev pub alpha : Fraction → Limiter → Fraction
alpha min_rtt l =
    let band = times (whole l.limit) l.cfg.tolerance in
    let target = whole l.cfg.target_latency in
    if is_below min_rtt target then times band (minus (whole 1) (over min_rtt target)) else band

-- `queue` is `limit * (1 - minRTT/rtt)`: it is below `x` where `limit` is below `x + limit * minRTT/rtt`.
abbrev pub vegas_from : Fraction → Fraction → Limiter → ℕ
vegas_from rtt min_rtt l =
    let unqueued = times (whole l.limit) (over min_rtt rtt) in
    let a = alpha min_rtt l in
    let beta = times a (whole 2) in
    if is_below (whole l.limit) (plus a unqueued)
    then l.limit + 1
    else (if is_below (plus beta unqueued) (whole l.limit) then cut l else l.limit)

abbrev pub vegas_at : Fraction → Option Fraction → Limiter → ℕ
vegas_at rtt none l = l.limit
vegas_at rtt (some min_rtt) l =
    if leb rtt.num 0 || leb min_rtt.num 0 then l.limit else vegas_from rtt min_rtt l

unfoldable pub vegas : Fraction → Limiter → ℕ
vegas rtt l = vegas_at rtt l.min_lat l

-- `max(1 - g*ratio, ratio)` for the gradient `g = (mean - avg) / avg` above the tolerance.
abbrev pub backoff_factor : Fraction → Fraction → Fraction → Fraction
backoff_factor mean avg ratio =
    let f = minus (whole 1) (times (over (minus mean avg) avg) ratio) in
    if is_below f ratio then ratio else f

unfoldable pub gradient : WindowSnap → Limiter → ℕ
gradient snap l =
    let mean = snap.mean_rtt in
    let avg = l.avg_lat in
    let tolerated = times avg l.cfg.tolerance in
    if ltb 0 snap.fails
    then cut l
    else (if leb avg.num 0
        then l.limit
        else (if is_below (plus mean tolerated) avg
            then l.limit + 2
            else (if is_at_most mean (plus avg tolerated)
                then l.limit + 1
                else trunc (times (whole l.limit) (backoff_factor mean avg l.cfg.decrease_ratio)))))

-- `AIMD` stands in for an unknown algorithm.
unfoldable pub proposed : Algorithm → WindowSnap → Limiter → Limiter × ℕ
unfolding aimd vegas gradient
proposed by_aimd snap l = aimd snap l
proposed by_vegas snap l = (l, vegas snap.mean_rtt l)
proposed by_gradient snap l = (l, gradient snap l)
proposed (unknown n) snap l = aimd snap l

-- What jitter leaves of the proposed limit.
unfoldable pub jitter : Config → Draw → ℕ → ℕ → ℕ
jitter c draw old next =
    let withheld = trunc (times (times (whole (next - old)) c.jitter) draw.amount) in
    if ltb old next && ltb 0 c.jitter.num
    then (if is_below draw.coin half then next - withheld else next)
    else next

unfoldable pub clamp : Config → ℕ → ℕ
clamp c next =
    let raised = if ltb next c.min_limit then c.min_limit else next in
    if ltb c.max_limit raised then c.max_limit else raised

-- Non-blocking sends into the semaphore, which has `cap` places.
abbrev pub send : ℕ → ℕ → ℕ
send cap n = if ltb n cap then suc n else n

unfoldable pub send_all : ℕ → ℕ → ℕ → ℕ
send_all cap zero n = n
send_all cap (suc k) n = send_all cap k (send cap n)

-- The permits in the semaphore and the debt after `drop` permits are taken out of circulation.
unfoldable pub shrink : ℕ → ℕ → ℕ → ℕ × ℕ
shrink zero sem debt = (sem, debt)
shrink (suc k) zero debt = (zero, debt + suc k)
shrink (suc k) (suc sem) debt = shrink k sem debt

-- A growth pays the debt first; a shrink takes free permits first.
unfoldable pub raise_limit : ℕ → Limiter → Limiter
unfolding send_all
raise_limit next l =
    let grant = next - l.limit in
    let paid = min l.debt grant in
    record l {
      limit = next;
      counters = record l.counters { incr = u64 (l.counters.incr + 1) };
      debt = l.debt - paid;
      sem = send_all l.cfg.max_limit (grant - paid) l.sem;
    }

unfoldable pub lower_limit : ℕ → Limiter → Limiter
unfolding shrink
lower_limit next l =
    let (sem, debt) = shrink (l.limit - next) l.sem l.debt in
    record l {
      limit = next;
      counters = record l.counters { decr = u64 (l.counters.decr + 1) };
      sem = sem;
      debt = debt;
    }

unfoldable pub set_limit : ℕ → Limiter → Limiter
unfolding raise_limit lower_limit
set_limit next l =
    if next == l.limit
    then l
    else (if ltb l.limit next then raise_limit next l else lower_limit next l)

-- What `adjust` does with the proposal: jitter, the bounds and the permits.
unfoldable pub conclude : Draw → Limiter → Limiter × ℕ → Limiter
unfolding jitter clamp set_limit
conclude draw l (l', next) = set_limit (clamp l.cfg (jitter l.cfg draw l.limit next)) l'

unfoldable pub adjust : Draw → WindowSnap → Limiter → Limiter
unfolding proposed conclude
adjust draw snap l = conclude draw l (proposed l.cfg.algorithm snap l)
