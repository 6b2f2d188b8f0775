-- ===== src/Adaptx/Examples.antt =====
-- Runs of the limiter, and the theorems at concrete inputs: a limit of 2 to start with and of at most
-- 3, windows of 1000 nanoseconds, no warmup and no jitter.
use urx.Base.{
  ℕ, zero, suc, ◌+◌, ◌-◌, ◌*◌, ◌/◌, ◌≤◌, ◌<◌, ◌≡◌, ◌≢◌, ◌⊎◌, refl, true, false, Option, none, some,
  List, [], ◌∷◌, map, arith,
}
use urx.Base.Int.{pos}
use urx.Base.Floats.{round_float}
use urx.Base.Fractions.{half, whole}
use urx.Base.Slices.{last_of}
use urx.Panix.Recover.{panics}
use urx.Adaptx.Config.{
  LimiterOption, with_initial_limit, with_max_limit, with_sample_window, with_warmup_samples,
  with_jitter, with_increase_rate, new_config, by_aimd, by_vegas,
}
use urx.Adaptx.Usable.{IsUsable, IsScaled, new_config-IsUsable}
use urx.Adaptx.Types.{Limiter, Draw, WindowSnap, Sample}
use urx.Adaptx.Control.{adjust}
use urx.Adaptx.Limiter.{new, empty_sample}
use urx.Adaptx.Execute.{has_permit, begin_execute, end_execute, runs_with, snapshot_of}
use urx.Adaptx.Callers.{
  Event, take, enter, settle, count_down, give_back, clear_stats, Callers, step, run,
}
use urx.Adaptx.Holds.{Holds}
use urx.Adaptx.Steps.{held_of, flying_of}
use urx.Adaptx.Permits.{AreCalm, starts, starts-Inv, run-limits, run-permits}
use urx.Adaptx.Growth.{AreSaturated, IsShort, adjust_all, adjust_all_grows}
use urx.Adaptx.Jitter.{adjust-jitter}
use urx.Adaptx.Backoff.{adjust_all_falls}
use urx.Adaptx.Races.{overtaking, reset_overtakes}
use urx.Adaptx.Calls.{execute-Holds}
use urx.Adaptx.Stats.{read_ring, summarize}
use urx.Adaptx.Readings.{push_all, read_ring-push_all}

program : Unit {0}
unfolding new new_config step adjust begin_execute end_execute read_ring summarize
program = tt

abbrev opts : List (Option LimiterOption)
opts =
    some (with_initial_limit (pos 2))
    ∷ some (with_max_limit (pos 3))
    ∷ some (with_sample_window (pos 1000))
    ∷ some (with_warmup_samples (pos 0))
    ∷ some (with_jitter (pos 0) 0)
    ∷ some (with_increase_rate (pos 1) 1)
    ∷ none
    ∷ []

abbrev draw : Draw
draw = record { amount = half; coin = half }

-- Two calls; the first fails after the window, which cuts the limit to 1 while the other holds its
-- permit, then a reset, and a third call.
abbrev events : List Event
events =
    take
    ∷ enter 0
    ∷ take
    ∷ enter 0
    ∷ take
    ∷ settle 1 2000 draw false 5
    ∷ settle 1 2000 draw false 5
    ∷ count_down 1
    ∷ give_back 1
    ∷ clear_stats 3000
    ∷ take
    ∷ enter 0
    ∷ []

abbrev ended : Callers
ended = run events (starts 0 opts)

events_limit : (ended.limiter.limit ≡ 2) × (ended.limiter.in_flight ≡ 2) × (ended.limiter.sem ≡ 0)
unfolding program
events_limit = (refl, refl, refl)

calm : AreCalm events (starts 0 opts)
unfolding program
calm = (tt, (tt, (tt, (tt, (tt, (tt, (tt, (tt, (tt, (refl, (tt, (tt, tt))))))))))))

run-limits_example :
    (ended.limiter.cfg.min_limit ≤ ended.limiter.limit)
    × (ended.limiter.limit ≤ ended.limiter.cfg.max_limit)
    × (ended.limiter.in_flight ≡ flying_of ended.calls)
    × (ended.limiter.in_flight ≤ ended.limiter.limit + ended.limiter.debt)
    × (ended.limiter.in_flight ≤ ended.limiter.cfg.max_limit)
run-limits_example = run-limits events 0 opts calm

is_open : ended.limiter.is_shut ≡ false
unfolding program
is_open = refl

run-permits_example :
    (ended.limiter.sem + held_of ended.calls ≡ ended.limiter.limit + ended.limiter.debt)
    × ((ended.limiter.debt ≡ 0) ⊎ (ended.limiter.sem ≡ 0))
run-permits_example = run-permits events 0 opts calm is_open

-- One permit at most, and two calls that both run.
abbrev single : List (Option LimiterOption)
single = some (with_max_limit (pos 1)) ∷ []

single_overtaken : (run (overtaking 0) (starts 0 single)).limiter.in_flight ≡ 2
unfolding program
single_overtaken = refl

reset_overtakes_example :
    let c = run (overtaking 7) (starts 0 single) in
    (c.limiter.in_flight ≡ 2) × (c.limiter.sem + held_of c.calls ≡ c.limiter.limit + 1)
reset_overtakes_example = reset_overtakes 0 7 single

abbrev busy : WindowSnap
busy = record { n = 1; fails = 0; max_in_flight = 9; mean_rtt = whole 5; min_rtt = some 5 }

abbrev failing : WindowSnap
failing = record { n = 2; fails = 1; max_in_flight = 9; mean_rtt = whole 5; min_rtt = some 5 }

abbrev busy_windows : List (Draw × WindowSnap)
busy_windows = (draw, busy) ∷ (draw, busy) ∷ []

abbrev fresh : Limiter
fresh = new 0 opts

fresh_setting :
    (fresh.cfg.jitter.num ≡ 0)
    × (fresh.increase_credit < fresh.cfg.increase_rate.den)
    × (fresh.cfg.min_limit ≤ fresh.limit)
    × (fresh.limit ≤ fresh.cfg.max_limit)
    × (fresh.cfg.increase_rate.num ≤ fresh.cfg.increase_rate.den)
    × (2 * fresh.cfg.jitter.num ≤ fresh.cfg.jitter.den)
unfolding program
fresh_setting = (refl, omega arith, omega arith, omega arith, omega arith, omega arith)

fresh_aimd : fresh.cfg.algorithm ≡ by_aimd
unfolding program
fresh_aimd = refl

fresh-AreSaturated : AreSaturated busy_windows fresh
unfolding program
fresh-AreSaturated = ((refl, omega arith), ((refl, omega arith), tt))

fresh_room :
    fresh.limit
      + (fresh.increase_credit + 2 * fresh.cfg.increase_rate.num) / fresh.cfg.increase_rate.den
    ≤ fresh.cfg.max_limit
unfolding program
fresh_room = omega arith

fresh-IsShort : IsShort fresh.cfg.increase_rate
unfolding program
fresh-IsShort = ((1, refl), omega arith)

-- The float64 nearest to a tenth of a permit, in parts of 2 ^ 55, added ten times to the credit: the
-- sum is below one.
abbrev tenths : ℕ → ℕ
tenths zero = 0
tenths (suc n) = round_float (tenths n + 3602879701896397)

ten_tenths : tenths 10 ≡ 36028797018963964
unfolding round_float
ten_tenths = refl

-- Half a permit for each of two windows.
adjust_all_grows_example :
    (adjust_all busy_windows fresh).limit
    ≡ fresh.limit
      + (fresh.increase_credit + 2 * fresh.cfg.increase_rate.num) / fresh.cfg.increase_rate.den
adjust_all_grows_example =
    adjust_all_grows busy_windows fresh fresh_aimd fresh_setting.0 fresh-IsShort fresh_setting.1
      fresh_setting.2 fresh-AreSaturated fresh_room

fresh-IsScaled : IsUsable fresh.cfg × IsScaled fresh.cfg
unfolding new
fresh-IsScaled = new_config-IsUsable opts

fresh_not_vegas : fresh.cfg.algorithm ≢ by_vegas
unfolding program
fresh_not_vegas = λ e. cc

fresh_above : fresh.limit - fresh.cfg.min_limit ≤ 1
unfolding program
fresh_above = omega arith

adjust_all_falls_example : (adjust_all ((draw, failing) ∷ []) fresh).limit ≡ fresh.cfg.min_limit
adjust_all_falls_example =
    adjust_all_falls ((draw, failing) ∷ []) fresh fresh_not_vegas fresh-IsScaled.0 fresh-IsScaled.1
      fresh_setting.2 fresh_setting.3 (omega arith, tt) fresh_above

adjust-jitter_example :
    adjust draw busy fresh ≡ adjust (record draw { amount = whole 0 }) busy fresh
adjust-jitter_example =
    adjust-jitter draw (record draw { amount = whole 0 }) busy fresh fresh-IsScaled.1
      fresh_setting.1 fresh_setting.4 fresh_setting.5 (omega arith) (omega arith)

fresh-Holds : Holds fresh 0 0
fresh-Holds = starts-Inv 0 opts

fresh_permits : (fresh.is_shut ≡ false) × (fresh.sem ≡ 2)
unfolding program
fresh_permits = (refl, refl)

execute-Holds_example :
    let (l1, call) = begin_execute true none has_permit fresh in
    let l2 = (end_execute {A = ℕ} 0 "get" 2000 draw false 5 (panics 4) l1).0 in
    (call ≡ runs_with (snapshot_of l1)) × Holds l1 1 1 × Holds l2 0 0
execute-Holds_example =
    execute-Holds 0 "get" 2000 draw false 5 (panics 4) fresh 1 0 0 fresh-Holds fresh_permits.0
      fresh_permits.1

abbrev samples : List Sample
samples =
    record { latency = 1; ts = 1; success = true }
    ∷ record { latency = 2; ts = 2; success = false }
    ∷ record { latency = 3; ts = 3; success = true }
    ∷ []

read_ring-push_all_example :
    read_ring (
      push_all samples
        (record { samples = empty_sample ∷ empty_sample ∷ []; head = 0; count = 0; ring_cap = 2 }))
    ≡ map some (last_of 2 samples)
read_ring-push_all_example = read_ring-push_all 2 samples (omega arith)

-- The percentiles of four latencies.
summarize_four :
    summarize (4 ∷ 1 ∷ 3 ∷ 9 ∷ []) ≡ record { avg = 4; low = 1; high = 9; q50 = 3; q99 = 4 }
unfolding program
summarize_four = refl
