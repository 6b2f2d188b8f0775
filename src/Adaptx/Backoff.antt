-- ===== src/Adaptx/Backoff.antt =====
-- adaptx/adaptx.go: windows with failures under the laws that cut the limit for them.
use urx.Base.{
  ℕ, ◌-◌, ◌*◌, ◌≤◌, ◌<◌, ◌≡◌, ◌≢◌, refl, ap, subst, sym, ◌∙◌, List, [], ◌∷◌, arith, max, length,
  lt→ltb, ge→ltb,
}
use native.Mathlib.Nat.{div-lt_iff_lt-mul, mul-lt-mul_of_pos_left, mul_assoc, mul_comm}
use urx.Adaptx.Config.{Config, Algorithm, by_aimd, by_vegas, by_gradient, unknown}
use urx.Adaptx.Usable.{IsUsable, IsScaled}
use urx.Adaptx.Types.{Limiter, WindowSnap, Draw}
use urx.Adaptx.Control.{aimd, cut, gradient, proposed, jitter, clamp, conclude, adjust}
use urx.Adaptx.Growth.{adjust_all, set_limit-Sets}

abbrev pub AreFailing : List (Draw × WindowSnap) → Type 0
AreFailing [] = Unit
AreFailing ((draw, snap) ∷ ws) = (0 < snap.fails) × AreFailing ws

-- The cut is below a limit that is above 0.
cut_lt : (l : Limiter) → IsScaled l.cfg → 0 < l.limit → cut l < l.limit
cut_lt l i h =
    let less = mul-lt-mul_of_pos_left {k = l.limit} i.1.1 h in
    let d = l.cfg.decrease_ratio.den in
    (div-lt_iff_lt-mul {k = 1 * d} {x = l.limit * l.cfg.decrease_ratio.num} {y = l.limit}
        (omega (arith, i.1))).1
      (omega (arith, less, mul_comm l.limit d, mul_comm l.limit (1 * d), mul_assoc 1 d l.limit))

-- What a law proposes of a window with failures: the cut, of a limiter with the same configuration.
failing-proposed :
    (a : Algorithm) (snap : WindowSnap) (l : Limiter)
    → a ≢ by_vegas
    → 0 < snap.fails
    → let (l', n) = proposed a snap l in (n ≡ cut l) × (l'.cfg ≡ l.cfg)
unfolding proposed aimd gradient
failing-proposed by_aimd snap l a f = rw (lt→ltb 0 snap.fails f, proposed, aimd) (refl, refl)
failing-proposed by_vegas snap l a f = absurd (a refl)
failing-proposed by_gradient snap l a f =
    rw (lt→ltb 0 snap.fails f, proposed, gradient) (refl, refl)
failing-proposed (unknown n) snap l a f = rw (lt→ltb 0 snap.fails f, proposed, aimd) (refl, refl)

jitter_down : (c : Config) (draw : Draw) (old next : ℕ) → next ≤ old → jitter c draw old next ≡ next
unfolding jitter
jitter_down c draw old next h = rw (ge→ltb old next h) refl

clamp_low : (c : Config) (n : ℕ) → IsUsable c → n ≤ c.max_limit → clamp c n ≡ max c.min_limit n
unfolding clamp
clamp_low c n u h = ground (arith, u)

failing-adjust :
    (draw : Draw) (snap : WindowSnap) (l : Limiter)
    → l.cfg.algorithm ≢ by_vegas
    → IsUsable l.cfg
    → IsScaled l.cfg
    → l.cfg.min_limit ≤ l.limit
    → l.limit ≤ l.cfg.max_limit
    → 0 < snap.fails
    → let l' = adjust draw snap l in (l'.limit ≡ max l.cfg.min_limit (cut l)) × (l'.cfg ≡ l.cfg)
unfolding adjust conclude
failing-adjust draw snap l a u i low high f =
    let (l', n) = proposed l.cfg.algorithm snap l in
    let (e, c) = failing-proposed l.cfg.algorithm snap l a f in
    let less = cut_lt l i (omega (arith, low, u.min_positive)) in
    let bounded = jitter_down l.cfg draw l.limit n (omega (arith, e, less)) in
    let clamped = clamp_low l.cfg n u (omega (arith, e, less, high)) in
    let sets = set_limit-Sets (clamp l.cfg (jitter l.cfg draw l.limit n)) l' in
    (sets.0 ∙ ap (clamp l.cfg) bounded ∙ clamped ∙ ap (max l.cfg.min_limit) e, sets.1 ∙ c)

-- From a limiter with that configuration.
falls_from :
    (cfg : Config)
    → cfg.algorithm ≢ by_vegas
    → IsUsable cfg
    → IsScaled cfg
    → (ws : List (Draw × WindowSnap)) (l : Limiter) → l.cfg ≡ cfg
    → cfg.min_limit ≤ l.limit
    → l.limit ≤ cfg.max_limit
    → AreFailing ws
    → l.limit - cfg.min_limit ≤ length ws
    → (adjust_all ws l).limit ≡ cfg.min_limit
falls_from cfg a u i [] l e low high f n = omega (arith, low, n)
falls_from cfg a u i ((draw, snap) ∷ ws) l e low high (f, fs) n =
    let top = ap (λ k. k.max_limit) e in
    let bottom = ap (λ k. k.min_limit) e in
    let usable = subst IsUsable (sym e) u in
    let scaled = subst IsScaled (sym e) i in
    let (limit, same) =
      failing-adjust draw snap l (subst (λ k. k.algorithm ≢ by_vegas) (sym e) a) usable scaled
        (omega (arith, low, bottom)) (omega (arith, high, top)) f in
    let less = cut_lt l scaled (omega (arith, low, u.min_positive)) in
    falls_from cfg a u i ws (adjust draw snap l) (same ∙ e) (omega (arith, limit, bottom))
      (omega (arith, limit, bottom, less, low, high)) fs (omega (arith, limit, bottom, less, n))

-- A run of failures drives the limit to its floor and keeps it there: after as many windows with a
-- failure as the limit stands above the minimum, or more, it is the minimum, under AIMD and under
-- Gradient.
pub adjust_all_falls :
    (ws : List (Draw × WindowSnap)) (l : Limiter)
    → l.cfg.algorithm ≢ by_vegas
    → IsUsable l.cfg
    → IsScaled l.cfg
    → l.cfg.min_limit ≤ l.limit
    → l.limit ≤ l.cfg.max_limit
    → AreFailing ws
    → l.limit - l.cfg.min_limit ≤ length ws
    → (adjust_all ws l).limit ≡ l.cfg.min_limit
adjust_all_falls ws l a u i low high f n = falls_from l.cfg a u i ws l refl low high f n
