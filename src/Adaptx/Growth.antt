-- ===== src/Adaptx/Growth.antt =====
-- adaptx/adaptx.go: what the AIMD law does over many windows.
use urx.Base.{
  ℕ, suc, ◌+◌, ◌-◌, ◌*◌, ◌/◌, ◌^◌, ◌≤◌, ◌<◌, ◌≡◌, refl, sym, ap, subst, ◌∙◌, List, [], ◌∷◌, arith,
  length, if-intro, if-cases, if_false, ltb, ge→ltb, ◌==◌,
}
use native.Mathlib.Nat.{mul-add-div_right, div-mul-le_self, lt-div-mul-add, div-eq_of_lt, suc-mul}
use urx.Base.Floats.{significand, round_float-exact}
use urx.Base.Fractions.{Fraction, whole, times, ceil}
use urx.Adaptx.Config.{Config, by_aimd}
use urx.Adaptx.Types.{Limiter, WindowSnap, Draw}
use urx.Adaptx.Control.{
  aimd, grow, proposed, jitter, clamp, raise_limit, lower_limit, set_limit, conclude, adjust,
}

-- One adjustment for each completed window.
abbrev pub adjust_all : List (Draw × WindowSnap) → Limiter → Limiter
adjust_all [] l = l
adjust_all ((draw, snap) ∷ ws) l = adjust_all ws (adjust draw snap l)

-- The window has no failure, and its peak in flight reached the utilization gate.
abbrev pub IsSaturated : WindowSnap → Limiter → Type 0
IsSaturated snap l =
    (snap.fails ≡ 0) × (ceil (times (whole l.limit) l.cfg.utilization) ≤ snap.max_in_flight)

abbrev pub AreSaturated : List (Draw × WindowSnap) → Limiter → Type 0
AreSaturated [] l = Unit
AreSaturated ((draw, snap) ∷ ws) l = IsSaturated snap l × AreSaturated ws (adjust draw snap l)

aimd-grow :
    (snap : WindowSnap) (l : Limiter)
    → IsSaturated snap l
    → l.increase_credit + l.cfg.increase_rate.num < significand
    → aimd snap l ≡ grow (l.increase_credit + l.cfg.increase_rate.num) l
unfolding aimd
aimd-grow snap l (f, s) e =
    rw (if_false (ltb 0 snap.fails) _ _ (ge→ltb 0 snap.fails (omega (arith, f))))
      (if_false (ltb snap.max_in_flight _) _ _ (ge→ltb snap.max_in_flight _ s))
    ∙ ap (λ credit. grow credit l)
        (round_float-exact (l.increase_credit + l.cfg.increase_rate.num) e)

-- A change of the limit sets it, and leaves the configuration and the credit.
abbrev pub Sets : ℕ → Limiter → Limiter → Type 0
Sets n l l' = (l'.limit ≡ n) × (l'.cfg ≡ l.cfg) × (l'.increase_credit ≡ l.increase_credit)

pub set_limit-Sets : (n : ℕ) (l : Limiter) → Sets n l (set_limit n l)
unfolding set_limit raise_limit lower_limit
set_limit-Sets n l =
    if-cases (Sets n l) (n == l.limit) l _ (λ e. (ground (arith, e), refl, refl))
      (λ e.
        if-intro (Sets n l) (ltb l.limit n) (raise_limit n l) (lower_limit n l) (refl, refl, refl)
          (refl, refl, refl))

jitter_off :
    (c : Config) (draw : Draw) (old next : ℕ) → c.jitter.num ≡ 0 → jitter c draw old next ≡ next
unfolding jitter
jitter_off c draw old next j = rw (ge→ltb 0 c.jitter.num (omega (arith, j))) (ground arith)

clamp_within : (c : Config) (n : ℕ) → c.min_limit ≤ n → n ≤ c.max_limit → clamp c n ≡ n
unfolding clamp
clamp_within c n low high = ground (arith, low, high)

concluded-Sets :
    (draw : Draw) (l l' : Limiter) (n : ℕ)
    → l.cfg.jitter.num ≡ 0
    → l.cfg.min_limit ≤ n
    → n ≤ l.cfg.max_limit
    → Sets n l' (conclude draw l (l', n))
unfolding conclude
concluded-Sets draw l l' n j low high =
    rw (jitter_off l.cfg draw l.limit n j, clamp_within l.cfg n low high) (set_limit-Sets n l')

adjust-aimd :
    (draw : Draw) (snap : WindowSnap) (l : Limiter)
    → l.cfg.algorithm ≡ by_aimd
    → adjust draw snap l ≡ conclude draw l (aimd snap l)
unfolding adjust proposed
adjust-aimd draw snap l a = ap (λ k. conclude draw l (proposed k snap l)) a

-- Without jitter an AIMD adjustment of a saturated window adds the whole steps of the credit.
saturated-adjust :
    (draw : Draw) (snap : WindowSnap) (l : Limiter)
    → l.cfg.algorithm ≡ by_aimd
    → l.cfg.jitter.num ≡ 0
    → IsSaturated snap l
    → l.cfg.min_limit ≤ l.limit
    → l.increase_credit + l.cfg.increase_rate.num < significand
    → let credit = l.increase_credit + l.cfg.increase_rate.num in
      let step = credit / l.cfg.increase_rate.den in
      l.limit + step ≤ l.cfg.max_limit
      → Sets
          (l.limit + step)
          (record l { increase_credit = credit - step * l.cfg.increase_rate.den })
          (adjust draw snap l)
saturated-adjust draw snap l a j s low fits high =
    let (l', n) = grow (l.increase_credit + l.cfg.increase_rate.num) l in
    let e : adjust draw snap l ≡ conclude draw l (l', n) =
      adjust-aimd draw snap l a ∙ ap (conclude draw l) (aimd-grow snap l s fits) in
    subst (Sets n l') (sym e) (concluded-Sets draw l l' n j (omega (arith, low)) high)

-- A whole number of steps comes out of the division.
steps_out :
    (c r d k : ℕ)
    → 0 < d
    → let s = (c + r) / d in (c + suc k * r) / d ≡ s + (c + r - s * d + k * r) / d
steps_out c r d k p =
    let s = (c + r) / d in
    let less = div-mul-le_self (c + r) d in
    let split : c + suc k * r ≡ s * d + (c + r - s * d + k * r) =
      omega (arith, suc-mul k r, less) in
    ap (λ x. x / d) split ∙ mul-add-div_right p s (c + r - s * d + k * r)

remainder_below : (a d : ℕ) → 0 < d → a - a / d * d < d
remainder_below a d p = omega (arith, lt-div-mul-add {a = a} {b = d} p)

-- From a limit `x` with the credit `c`, under one configuration.
grows_from :
    (cfg : Config)
    → cfg.algorithm ≡ by_aimd
    → cfg.jitter.num ≡ 0
    → 0 < cfg.increase_rate.den
    → cfg.increase_rate.den + cfg.increase_rate.num ≤ significand
    → (ws : List (Draw × WindowSnap)) (l : Limiter) (x c : ℕ) → l.cfg ≡ cfg
    → l.limit ≡ x
    → l.increase_credit ≡ c
    → c < cfg.increase_rate.den
    → cfg.min_limit ≤ x
    → AreSaturated ws l
    → x + (c + length ws * cfg.increase_rate.num) / cfg.increase_rate.den ≤ cfg.max_limit
    → (adjust_all ws l).limit ≡ x + (c + length ws * cfg.increase_rate.num) / cfg.increase_rate.den
grows_from cfg a j p g [] l x c e ex ec small low s high =
    let none_yet : (c + 0 * cfg.increase_rate.num) / cfg.increase_rate.den ≡ 0 =
      ap (λ n. n / cfg.increase_rate.den) (omega arith) ∙ div-eq_of_lt small in
    omega (arith, ex, none_yet)
grows_from cfg a j p g ((draw, snap) ∷ ws) l x c e ex ec small low (s, ss) high =
    let r = cfg.increase_rate.num in
    let d = cfg.increase_rate.den in
    let st = (c + r) / d in
    let num = ap (λ k. k.increase_rate.num) e in
    let den = ap (λ k. k.increase_rate.den) e in
    let top = ap (λ k. k.max_limit) e in
    let bottom = ap (λ k. k.min_limit) e in
    let out = steps_out c r d (length ws) p in
    let steps : (l.increase_credit + l.cfg.increase_rate.num) / l.cfg.increase_rate.den ≡ st =
      rw (ec, num, den) refl in
    let room : l.limit + (l.increase_credit + l.cfg.increase_rate.num) / l.cfg.increase_rate.den
        ≤ l.cfg.max_limit =
      omega (arith, high, out, steps, ex, top) in
    let (limit, same, credit) =
      saturated-adjust draw snap l (ap (λ k. k.algorithm) e ∙ a) (ap (λ k. k.jitter.num) e ∙ j) s
        (omega (arith, low, bottom, ex)) (omega (arith, ec, num, small, g)) room in
    let rest =
      grows_from cfg a j p g ws (adjust draw snap l) (x + st) (c + r - st * d) (same ∙ e)
        (limit ∙ rw (ex, steps) refl) (credit ∙ rw (ec, num, den) refl)
        (remainder_below (c + r) d p) (omega (arith, low)) ss (omega (arith, high, out)) in
    omega (arith, rest, out)

-- A float64 that adds up to less than a permit more without rounding: `m / 2 ^ k`, where `2 ^ k + m` is
-- at most 2 ^ 53.
abbrev pub IsShort : Fraction → Type 0
IsShort r = ((k : ℕ) × (r.den ≡ 2 ^ k)) × (r.den + r.num ≤ significand)

-- Without jitter, over windows that all reached the utilization gate without a failure, and for a
-- rate that float64 adds up without rounding (as 1, a half or an eighth, not a tenth): an AIMD limit
-- grows by the rate for each window, cut to whole permits, as long as that stays within the maximum.
pub adjust_all_grows :
    (ws : List (Draw × WindowSnap)) (l : Limiter)
    → l.cfg.algorithm ≡ by_aimd
    → l.cfg.jitter.num ≡ 0
    → IsShort l.cfg.increase_rate
    → l.increase_credit < l.cfg.increase_rate.den
    → l.cfg.min_limit ≤ l.limit
    → AreSaturated ws l
    → let grown =
        l.limit
        + (l.increase_credit + length ws * l.cfg.increase_rate.num) / l.cfg.increase_rate.den in
      grown ≤ l.cfg.max_limit → (adjust_all ws l).limit ≡ grown
adjust_all_grows ws l a j short small low s high =
    grows_from l.cfg a j (omega (arith, small)) short.1 ws l l.limit l.increase_credit refl refl
      refl small low s high
