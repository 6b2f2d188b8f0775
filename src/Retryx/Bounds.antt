-- ===== src/Retryx/Bounds.antt =====
-- retryx/retryx.go: the delays' bounds.
use urx.Base.{ℕ, ◌+◌, ◌-◌, ◌*◌, ◌^◌, ◌≤◌, ◌<◌, min, ◌≡◌, ◌≢◌, ◌⊎◌, inl, inr, lt→ltb, refl, arith}
use native.Mathlib.Nat.{pow-le-pow_right}
use urx.Base.Errors.{Error}
use urx.Retryx.Config.{Config, JitterMode, multiplicative, off, equal}
use urx.Retryx.Delays.{whole, capped, jitter, backoff, delay_after}

product_le : (d r : ℕ) → r < whole → d * r ≤ d * whole
product_le d r h = grind arith

-- With equal jitter a delay lies between half the nominal one and the whole of it, with the default
-- jitter between half and one and a half of it, up to the cut to whole nanoseconds.
jitter_bounds :
    (mode : JitterMode) (random d : ℕ)
    → random < whole
    → (d ≤ 2 * jitter mode random d + 1) × (2 * jitter mode random d ≤ 3 * d)
unfolding jitter
jitter_bounds equal random d h = omega (arith, product_le d random h)
jitter_bounds multiplicative random d h = omega (arith, product_le d random h)
jitter_bounds off random d h = omega arith

jitter_cases :
    (mode : JitterMode) (random d : ℕ)
    → random < whole
    → (mode ≡ multiplicative) ⊎ (jitter mode random d ≤ d)
unfolding jitter
jitter_cases multiplicative random d h = inl refl
jitter_cases equal random d h = inr (omega (arith, product_le d random h))
jitter_cases off random d h = inr (omega arith)

off_or : (mode : JitterMode) (random d : ℕ) → (mode ≢ off) ⊎ (jitter mode random d ≡ d)
unfolding jitter
off_or off random d = inr refl
off_or multiplicative random d = inl (λ e. cc)
off_or equal random d = inl (λ e. cc)

capped-min : (cfg : Config) (i : ℕ) → capped cfg i ≡ min cfg.max_backoff (cfg.backoff * 2 ^ i)
unfolding capped
capped-min cfg i = ground arith

-- The delay before retry `i`: the nominal one is `base * 2 ^ i`, at most the maximum. The delay
-- taken is at least half of it, up to the cut to whole nanoseconds, and at most one and a half of
-- it; it passes the nominal one in the default mode alone, and without jitter it is the nominal one.
pub backoff_bounds :
    (cfg : Config) (random i : ℕ)
    → random < whole
    → let d = capped cfg i in
      let b = backoff cfg random i in
      (d ≡ min cfg.max_backoff (cfg.backoff * 2 ^ i))
      × (d ≤ 2 * b + 1)
      × (2 * b ≤ 3 * d)
      × ((cfg.jitter_mode ≡ multiplicative) ⊎ (b ≤ d))
      × ((cfg.jitter_mode ≢ off) ⊎ (b ≡ d))
unfolding backoff
backoff_bounds cfg random i h =
    let (low, high) = jitter_bounds cfg.jitter_mode random (capped cfg i) h in
    (
      capped-min cfg i,
      low,
      high,
      jitter_cases cfg.jitter_mode random (capped cfg i) h,
      off_or cfg.jitter_mode random (capped cfg i),
    )

mul_mono : (a b c : ℕ) → a ≤ b → c * a ≤ c * b
mul_mono a b c h = grind arith

-- Without jitter a later delay is never shorter.
pub capped_mono : (cfg : Config) (i k : ℕ) → capped cfg i ≤ capped cfg (i + k)
capped_mono cfg i k = omega (
  arith,
  capped-min cfg i,
  capped-min cfg (i + k),
  mul_mono (2 ^ i) (2 ^ (i + k)) cfg.backoff (pow-le-pow_right {n = 2} (omega arith) (omega arith)),
)

-- With a budget for the whole call a delay never passes what is left of it.
pub delay_after_budget :
    (cfg : Config) (random attempt i elapsed : ℕ) (err : Error)
    → 0 < cfg.max_elapsed
    → delay_after cfg random attempt err i elapsed ≤ cfg.max_elapsed - elapsed
unfolding delay_after
delay_after_budget cfg random attempt i elapsed err h =
    rw (lt→ltb 0 cfg.max_elapsed h) (ground arith)
