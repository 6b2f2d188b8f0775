-- ===== src/Adaptx/Jitter.antt =====
-- adaptx/adaptx.go: jitter, whose part of a step is cut to whole permits.
use urx.Base.{
  ℕ, ◌+◌, ◌-◌, ◌*◌, ◌/◌, ◌≤◌, ◌<◌, ◌≡◌, refl, sym, ap, ◌∙◌, ◌&&◌, ◌||◌, Option, none, some, arith,
  if◌then◌else◌, if-intro, if-cases, ltb, leb,
}
use native.Mathlib.Nat.{
  div-eq_of_lt, div-lt_iff_lt-mul, div-le_of_le-mul, mul-le-mul_right, mul-le-mul_left,
  mul-lt-mul_of_pos_left, mul_assoc, mul_comm,
}
use urx.Base.Floats.{round_float, round_float-le}
use urx.Base.Fractions.{
  Fraction, whole, half, plus, minus, times, over, is_below, is_at_most, trunc, ceil,
}
use urx.Adaptx.Config.{Config, Algorithm, by_aimd, by_vegas, by_gradient, unknown}
use urx.Adaptx.Usable.{IsScaled}
use urx.Adaptx.Types.{Limiter, WindowSnap, Draw}
use urx.Adaptx.Control.{
  aimd, grow, cut, set_limit, clamp, vegas, vegas_at, vegas_from, alpha, gradient, backoff_factor,
  proposed, jitter, conclude, adjust,
}

-- A share of at most one permit is none.
share_zero :
    (step jn jd an ad : ℕ)
    → step * jn ≤ jd
    → an < ad
    → 0 < jd
    → (step * jn * an) / (1 * jd * ad) ≡ 0
share_zero step jn jd an ad h k p =
    div-eq_of_lt
      (omega (arith, mul-le-mul_right an h, mul-lt-mul_of_pos_left k p, mul_assoc 1 jd ad))

-- A share of a number is at most the number.
share_le : (n num den : ℕ) → num ≤ den → (n * num) / (1 * den) ≤ n
share_le n num den h =
    div-le_of_le-mul (1 * den)
      (omega (arith, mul-le-mul_left n h, mul_comm n den, mul_assoc 1 den n))

jitter_small :
    (c : Config) (draw : Draw) (old next : ℕ)
    → (next - old) * c.jitter.num ≤ c.jitter.den
    → draw.amount.num < draw.amount.den
    → 0 < c.jitter.den
    → jitter c draw old next ≡ next
unfolding jitter
jitter_small c draw old next h k p =
    let z =
      share_zero (next - old) c.jitter.num c.jitter.den draw.amount.num draw.amount.den h k p in
    let withheld = trunc (times (times (whole (next - old)) c.jitter) draw.amount) in
    if-intro (λ n. n ≡ next) (ltb old next && ltb 0 c.jitter.num)
      (if is_below draw.coin half then next - withheld else next) next
      (if-intro (λ n. n ≡ next) (is_below draw.coin half) (next - withheld) next (omega (arith, z))
        refl)
      refl

cut_le : (l : Limiter) → IsScaled l.cfg → cut l ≤ l.limit
cut_le l i = share_le l.limit l.cfg.decrease_ratio.num l.cfg.decrease_ratio.den (omega (arith, i.1))

aimd_small :
    (snap : WindowSnap) (l : Limiter)
    → IsScaled l.cfg
    → l.increase_credit < l.cfg.increase_rate.den
    → l.cfg.increase_rate.num ≤ l.cfg.increase_rate.den
    → (aimd snap l).1 ≤ l.limit + 2
unfolding aimd
aimd_small snap l i c r =
    let P = λ (x : Limiter × ℕ). x.1 ≤ l.limit + 2 in
    let c' = cut_le l i in
    let sum = l.increase_credit + l.cfg.increase_rate.num in
    let grown = grow (round_float sum) l in
    let step =
      div-lt_iff_lt-mul {k = l.cfg.increase_rate.den} {x = round_float sum} {y = 3}
        (omega (arith, c)) in
    let small = step.1 (omega (arith, c, r, round_float-le sum)) in
    let need = ceil (times (whole l.limit) l.cfg.utilization) in
    let gated = if ltb snap.max_in_flight need then (l, l.limit) else grown in
    if-intro P (ltb 0 snap.fails) (record l { increase_credit = 0 }, cut l) gated
      (omega (arith, c'))
      (if-intro P (ltb snap.max_in_flight need) (l, l.limit) grown (omega arith)
        (omega (arith, small)))

vegas_at_small :
    (rtt : Fraction) (m : Option Fraction) (l : Limiter)
    → IsScaled l.cfg
    → vegas_at rtt m l ≤ l.limit + 2
vegas_at_small rtt none l i = omega arith
vegas_at_small rtt (some m) l i =
    let c = cut_le l i in
    let unqueued = times (whole l.limit) (over m rtt) in
    let a = alpha m l in
    let P = λ (n : ℕ). n ≤ l.limit + 2 in
    let high =
      if is_below (plus (times a (whole 2)) unqueued) (whole l.limit) then cut l else l.limit in
    if-intro P (leb rtt.num 0 || leb m.num 0) l.limit (vegas_from rtt m l) (omega arith) (
      if-intro P (is_below (whole l.limit) (plus a unqueued)) (l.limit + 1) high (omega arith) (
        if-intro P (is_below (plus (times a (whole 2)) unqueued) (whole l.limit)) (cut l) l.limit
          (omega (arith, c)) (omega arith)))

vegas_small : (rtt : Fraction) (l : Limiter) → IsScaled l.cfg → vegas rtt l ≤ l.limit + 2
unfolding vegas
vegas_small rtt l i = vegas_at_small rtt l.min_lat l i

backoff_factor_share :
    (mean avg ratio : Fraction)
    → ratio.num ≤ ratio.den
    → let f = backoff_factor mean avg ratio in f.num ≤ f.den
backoff_factor_share mean avg ratio h =
    let f = minus (whole 1) (times (over (minus mean avg) avg) ratio) in
    if-intro (λ (x : Fraction). x.num ≤ x.den) (is_below f ratio) ratio f h (omega arith)

gradient_small : (snap : WindowSnap) (l : Limiter) → IsScaled l.cfg → gradient snap l ≤ l.limit + 2
unfolding gradient
gradient_small snap l i =
    let P = λ (n : ℕ). n ≤ l.limit + 2 in
    let mean = snap.mean_rtt in
    let avg = l.avg_lat in
    let tolerated = times avg l.cfg.tolerance in
    let backed = trunc (times (whole l.limit) (backoff_factor mean avg l.cfg.decrease_ratio)) in
    let f = backoff_factor mean avg l.cfg.decrease_ratio in
    let below = backoff_factor_share mean avg l.cfg.decrease_ratio (omega (arith, i.1)) in
    let within = share_le l.limit f.num f.den below in
    let slow = if is_at_most mean (plus avg tolerated) then l.limit + 1 else backed in
    let moved = if is_below (plus mean tolerated) avg then l.limit + 2 else slow in
    let held = if leb avg.num 0 then l.limit else moved in
    let c = cut_le l i in
    if-intro P (ltb 0 snap.fails) (cut l) held (omega (arith, c)) (
      if-cases P (leb avg.num 0) l.limit moved (λ e. omega arith)
        (λ e. if-intro P (is_below (plus mean tolerated) avg) (l.limit + 2) slow (omega arith) (
          if-intro P (is_at_most mean (plus avg tolerated)) (l.limit + 1) backed (omega arith)
            (omega (arith, within)))))

proposed_small :
    (a : Algorithm) (snap : WindowSnap) (l : Limiter)
    → IsScaled l.cfg
    → l.increase_credit < l.cfg.increase_rate.den
    → l.cfg.increase_rate.num ≤ l.cfg.increase_rate.den
    → (proposed a snap l).1 ≤ l.limit + 2
unfolding proposed
proposed_small by_aimd snap l i c r = aimd_small snap l i c r
proposed_small by_vegas snap l i c r = vegas_small snap.mean_rtt l i
proposed_small by_gradient snap l i c r = gradient_small snap l i
proposed_small (unknown n) snap l i c r = aimd_small snap l i c r

step_few : (next old : ℕ) → next ≤ old + 2 → next - old ≤ 2
step_few next old h = omega arith

-- With a rate of at most one permit, and a jitter of at most a half (the default is a tenth), the
-- random numbers never decide anything: an adjustment is the same whatever is drawn, for each of the
-- algorithms.
pub adjust-jitter :
    (draw draw' : Draw) (snap : WindowSnap) (l : Limiter)
    → IsScaled l.cfg
    → l.increase_credit < l.cfg.increase_rate.den
    → l.cfg.increase_rate.num ≤ l.cfg.increase_rate.den
    → 2 * l.cfg.jitter.num ≤ l.cfg.jitter.den
    → draw.amount.num < draw.amount.den
    → draw'.amount.num < draw'.amount.den
    → adjust draw snap l ≡ adjust draw' snap l
unfolding adjust conclude
adjust-jitter draw draw' snap l i c r j p q =
    let (l', next) = proposed l.cfg.algorithm snap l in
    let small = proposed_small l.cfg.algorithm snap l i c r in
    let few : (next - l.limit) * l.cfg.jitter.num ≤ l.cfg.jitter.den =
      omega (arith, mul-le-mul_right l.cfg.jitter.num (step_few next l.limit small), j) in
    let same = λ (d : Draw) (k : d.amount.num < d.amount.den).
      jitter_small l.cfg d l.limit next few k (omega (arith, i.6)) in
    ap (λ n. set_limit (clamp l.cfg n) l') (same draw p ∙ sym (same draw' q))
