-- ===== src/Adaptx/Config.antt =====
-- adaptx/options.go and the algorithms of adaptx/types.go. A float is an exact fraction, and an
-- option takes one as an integer over one more than a number. Durations are in nanoseconds. The
-- clock's readings are arguments of the methods; of the hook the configuration says whether there
-- is one.
use urx.Base.{
  ℕ, suc, ◌/◌, String, Bool, false, Option, none, some, List, [], ◌∷◌, if◌then◌else◌, is_empty, ltb,
  leb,
}
use urx.Base.Int.{ℤ, pos, negsuc, set_if_pos}
use urx.Base.Fractions.{Fraction, half}

-- `unknown` is a value outside the named constants.
pub data Algorithm : Type 0 where
  by_aimd by_vegas by_gradient : Algorithm
  unknown : ℕ → Algorithm

unfoldable pub Algorithm_string : Algorithm → String
Algorithm_string by_aimd = "AIMD"
Algorithm_string by_vegas = "Vegas"
Algorithm_string by_gradient = "Gradient"
Algorithm_string (unknown n) = "unknown"

pub record Config : Type 0 where
  pub algorithm : Algorithm
  pub initial_limit : ℕ
  pub min_limit : ℕ
  pub max_limit : ℕ
  pub warmup_samples : ℕ
  pub smoothing : Fraction
  pub increase_rate : Fraction
  pub decrease_ratio : Fraction
  pub tolerance : Fraction
  pub min_lat_decay : Fraction
  pub jitter : Fraction
  pub utilization : Fraction
  pub target_latency : ℕ
  pub sample_window : ℕ
  pub op : String
  pub on_limit_change : Bool

abbrev pub defaults : Config
defaults = record {
  algorithm = by_aimd;
  initial_limit = 10;
  min_limit = 1;
  max_limit = 1000;
  warmup_samples = 10;
  smoothing = record { num = 1; den = 5 };
  increase_rate = record { num = 1; den = 1 };
  decrease_ratio = half;
  tolerance = record { num = 1; den = 10 };
  min_lat_decay = record { num = 1; den = 1000 };
  jitter = record { num = 1; den = 10 };
  utilization = record { num = 9; den = 10 };
  target_latency = 100_000_000;
  sample_window = 1_000_000_000;
  op = "";
  on_limit_change = false;
}

pub data LimiterOption : Type 0 where
  with_algorithm : Algorithm → LimiterOption
  with_initial_limit with_min_limit with_max_limit with_warmup_samples : ℤ → LimiterOption
  with_smoothing with_increase_rate with_decrease_ratio : ℤ → ℕ → LimiterOption
  with_utilization with_tolerance with_min_latency_decay with_jitter : ℤ → ℕ → LimiterOption
  with_target_latency with_sample_window : ℤ → LimiterOption
  with_op : String → LimiterOption
  with_on_limit_change : Bool → LimiterOption

-- `if n >= 0 { field = n }`
abbrev set_if_natural : ℤ → ℕ → ℕ
set_if_natural (pos n) old = n
set_if_natural (negsuc n) old = old

-- The values above 0; above 0 and at most 1; above 0 and below 1; from 0 to 1.
abbrev pub set_positive : ℤ → ℕ → Fraction → Fraction
set_positive (pos (suc n)) d old = record { num = suc n; den = suc d }
set_positive _ d old = old

abbrev pub set_share : ℤ → ℕ → Fraction → Fraction
set_share (pos (suc n)) d old = if leb n d then record { num = suc n; den = suc d } else old
set_share _ d old = old

abbrev pub set_proper : ℤ → ℕ → Fraction → Fraction
set_proper (pos (suc n)) d old = if ltb n d then record { num = suc n; den = suc d } else old
set_proper _ d old = old

abbrev pub set_unit : ℤ → ℕ → Fraction → Fraction
set_unit (pos n) d old = if leb n (suc d) then record { num = n; den = suc d } else old
set_unit (negsuc n) d old = old

unfoldable pub apply : LimiterOption → Config → Config
apply (with_algorithm a) c = record c { algorithm = a }
apply (with_initial_limit n) c = record c { initial_limit = set_if_pos n c.initial_limit }
apply (with_min_limit n) c = record c { min_limit = set_if_pos n c.min_limit }
apply (with_max_limit n) c = record c { max_limit = set_if_pos n c.max_limit }
apply (with_smoothing f d) c = record c { smoothing = set_share f d c.smoothing }
apply (with_increase_rate r d) c = record c { increase_rate = set_positive r d c.increase_rate }
apply (with_decrease_ratio r d) c = record c { decrease_ratio = set_proper r d c.decrease_ratio }
apply (with_utilization f d) c = record c { utilization = set_share f d c.utilization }
apply (with_target_latency d) c = record c { target_latency = set_if_pos d c.target_latency }
apply (with_tolerance f d) c = record c { tolerance = set_share f d c.tolerance }
apply (with_sample_window d) c = record c { sample_window = set_if_pos d c.sample_window }
apply (with_warmup_samples n) c = record c { warmup_samples = set_if_natural n c.warmup_samples }
apply (with_min_latency_decay f d) c = record c { min_lat_decay = set_unit f d c.min_lat_decay }
apply (with_jitter f d) c = record c { jitter = set_unit f d c.jitter }
apply (with_op op) c = record c { op = if is_empty op then c.op else op }
apply (with_on_limit_change has_fn) c = record c { on_limit_change = has_fn }

unfoldable pub apply_all : List (Option LimiterOption) → Config → Config
unfolding apply
apply_all [] c = c
apply_all (none ∷ opts) c = apply_all opts c
apply_all (some opt ∷ opts) c = apply_all opts (apply opt c)

-- The cross-field invariants, in the order of the code.
abbrev pub floor_min : Config → Config
floor_min c = record c { min_limit = if ltb c.min_limit 1 then 1 else c.min_limit }

abbrev pub raise_max : Config → Config
raise_max c = record c {
  max_limit = if ltb c.max_limit c.min_limit then c.min_limit else c.max_limit;
}

abbrev pub raise_initial : Config → Config
raise_initial c = record c {
  initial_limit = if ltb c.initial_limit c.min_limit then c.min_limit else c.initial_limit;
}

abbrev pub lower_initial : Config → Config
lower_initial c = record c {
  initial_limit = if ltb c.max_limit c.initial_limit then c.max_limit else c.initial_limit;
}

unfoldable pub new_config : List (Option LimiterOption) → Config
unfolding apply_all
new_config opts = lower_initial (raise_initial (raise_max (floor_min (apply_all opts defaults))))

abbrev pub op_or_default : Config → String
op_or_default c = if is_empty c.op then "adaptx.Execute" else c.op

abbrev pub op_or_default_try : Config → String
op_or_default_try c = if is_empty c.op then "adaptx.TryExecute" else c.op

unfoldable pub ring_capacity : Config → ℕ
ring_capacity c =
    let n = c.sample_window / 100_000 in
    if ltb n 100 then 100 else (if ltb 10_000 n then 10_000 else n)
