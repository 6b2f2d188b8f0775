-- ===== src/Adaptx/Usable.antt =====
-- adaptx/options.go: the configuration that a limiter gets, whatever options are given.
use urx.Base.{ℕ, zero, suc, ◌<◌, ◌≤◌, Option, none, some, List, [], ◌∷◌, arith}
use urx.Base.Int.{ℤ, pos, negsuc, set_if_pos}
use urx.Base.Fractions.{Fraction}
use urx.Adaptx.Config.{
  Config, LimiterOption, with_algorithm, with_initial_limit, with_min_limit, with_max_limit,
  with_warmup_samples, with_smoothing, with_increase_rate, with_decrease_ratio, with_utilization,
  with_tolerance, with_min_latency_decay, with_jitter, with_target_latency, with_sample_window,
  with_op, with_on_limit_change, set_positive, set_share, set_proper, set_unit, apply, apply_all,
  floor_min, raise_max, raise_initial, lower_initial, defaults, new_config,
}

-- The bounds of the limit are in order, and the fractions are in the ranges that their options keep.
pub record IsUsable (c : Config) : Type 0 where
  pub min_positive : 0 < c.min_limit
  pub min_initial : c.min_limit ≤ c.initial_limit
  pub initial_max : c.initial_limit ≤ c.max_limit

abbrev pub IsBelow : Fraction → Type 0
IsBelow f = (0 < f.num) × (f.num < f.den)

abbrev pub IsShare : Fraction → Type 0
IsShare f = (0 < f.num) × (f.num ≤ f.den)

abbrev pub IsPart : Fraction → Type 0
IsPart f = (0 < f.den) × (f.num ≤ f.den)

abbrev IsPositive : Fraction → Type 0
IsPositive f = (0 < f.num) × (0 < f.den)

-- The rate, the ratio, the tolerance, the smoothing, the utilization, the decay, the jitter and the
-- window.
abbrev pub IsScaled : Config → Type 0
IsScaled c =
    IsPositive c.increase_rate
    × IsBelow c.decrease_ratio
    × IsShare c.tolerance
    × IsShare c.smoothing
    × IsShare c.utilization
    × IsPart c.min_lat_decay
    × IsPart c.jitter
    × (0 < c.sample_window)

set_positive-IsPositive :
    (n : ℤ) (d : ℕ) (old : Fraction) → IsPositive old → IsPositive (set_positive n d old)
set_positive-IsPositive (pos (suc n)) d old h = (omega arith, omega arith)
set_positive-IsPositive (pos zero) d old h = h
set_positive-IsPositive (negsuc n) d old h = h

set_share-IsShare : (n : ℤ) (d : ℕ) (old : Fraction) → IsShare old → IsShare (set_share n d old)
set_share-IsShare (pos (suc n)) d old h = (ground (arith, h), ground (arith, h))
set_share-IsShare (pos zero) d old h = h
set_share-IsShare (negsuc n) d old h = h

set_proper-IsBelow : (n : ℤ) (d : ℕ) (old : Fraction) → IsBelow old → IsBelow (set_proper n d old)
set_proper-IsBelow (pos (suc n)) d old h = (ground (arith, h), ground (arith, h))
set_proper-IsBelow (pos zero) d old h = h
set_proper-IsBelow (negsuc n) d old h = h

set_unit-IsPart : (n : ℤ) (d : ℕ) (old : Fraction) → IsPart old → IsPart (set_unit n d old)
set_unit-IsPart (pos n) d old h = (ground (arith, h), ground (arith, h))
set_unit-IsPart (negsuc n) d old h = h

set_if_pos_lem : (n : ℤ) (old : ℕ) → 0 < old → 0 < set_if_pos n old
set_if_pos_lem (pos (suc n)) old h = omega arith
set_if_pos_lem (pos zero) old h = h
set_if_pos_lem (negsuc n) old h = h

-- An option keeps what it does not name, and what it names in its range.
apply-IsScaled : (opt : LimiterOption) (c : Config) → IsScaled c → IsScaled (apply opt c)
unfolding apply
apply-IsScaled (with_algorithm a) c i = i
apply-IsScaled (with_initial_limit n) c i = i
apply-IsScaled (with_min_limit n) c i = i
apply-IsScaled (with_max_limit n) c i = i
apply-IsScaled (with_warmup_samples n) c i = i
apply-IsScaled (with_smoothing f d) c i =
    (i.0, i.1, i.2, (set_share-IsShare f d c.smoothing i.3), i.4, i.5, i.6, i.7)
apply-IsScaled (with_increase_rate r d) c i =
    ((set_positive-IsPositive r d c.increase_rate i.0), i.1, i.2, i.3, i.4, i.5, i.6, i.7)
apply-IsScaled (with_decrease_ratio r d) c i =
    (i.0, (set_proper-IsBelow r d c.decrease_ratio i.1), i.2, i.3, i.4, i.5, i.6, i.7)
apply-IsScaled (with_utilization f d) c i =
    (i.0, i.1, i.2, i.3, (set_share-IsShare f d c.utilization i.4), i.5, i.6, i.7)
apply-IsScaled (with_target_latency d) c i = i
apply-IsScaled (with_tolerance f d) c i =
    (i.0, i.1, (set_share-IsShare f d c.tolerance i.2), i.3, i.4, i.5, i.6, i.7)
apply-IsScaled (with_sample_window d) c i =
    (i.0, i.1, i.2, i.3, i.4, i.5, i.6, (set_if_pos_lem d c.sample_window i.7))
apply-IsScaled (with_min_latency_decay f d) c i =
    (i.0, i.1, i.2, i.3, i.4, (set_unit-IsPart f d c.min_lat_decay i.5), i.6, i.7)
apply-IsScaled (with_jitter f d) c i =
    (i.0, i.1, i.2, i.3, i.4, i.5, (set_unit-IsPart f d c.jitter i.6), i.7)
apply-IsScaled (with_op op) c i = i
apply-IsScaled (with_on_limit_change b) c i = i

apply_all-IsScaled :
    (opts : List (Option LimiterOption)) (c : Config) → IsScaled c → IsScaled (apply_all opts c)
unfolding apply_all
apply_all-IsScaled [] c i = i
apply_all-IsScaled (none ∷ opts) c i = apply_all-IsScaled opts c i
apply_all-IsScaled (some opt ∷ opts) c i =
    apply_all-IsScaled opts (apply opt c) (apply-IsScaled opt c i)

defaults-IsScaled : IsScaled defaults
defaults-IsScaled = omega arith

-- The bounds in order after the cross-field invariants.
bounds-IsUsable : (c : Config) → IsUsable (lower_initial (raise_initial (raise_max (floor_min c))))
bounds-IsUsable c = record {
  min_positive = ground arith;
  min_initial = ground arith;
  initial_max = ground arith;
}

-- Whatever options are given, the limits are in order, from at least 1, and every fraction is in
-- the range that its option documents.
pub new_config-IsUsable :
    (opts : List (Option LimiterOption)) → IsUsable (new_config opts) × IsScaled (new_config opts)
unfolding new_config
new_config-IsUsable opts =
    let i = apply_all-IsScaled opts defaults defaults-IsScaled in
    (bounds-IsUsable (apply_all opts defaults), i)
