-- ===== src/Circuitx/Config.antt =====
-- circuitx/options.go: defaults, options and the floors that `newConfig` applies last.
use urx.Base.{
  ℕ, ◌<◌, String, Bool, true, false, Option, none, some, List, [], ◌∷◌, if◌then◌else◌, is_empty,
  ltb, arith,
}
use urx.Base.Errors.{Error}
use urx.Base.Int.{ℤ, set_if_pos}
use urx.Circuitx.Types.{Config}

abbrev pub default_max_failures : ℕ
default_max_failures = 5

-- 10 seconds
abbrev pub default_reset_timeout : ℕ
default_reset_timeout = 10_000_000_000

abbrev pub default_half_open_max : ℕ
default_half_open_max = 1

abbrev pub default_success_threshold : ℕ
default_success_threshold = 1

-- The options of the package; the hook and the predicate may be nil.
pub data BreakerOption : Type 0 where
  with_max_failures : ℤ → BreakerOption
  with_reset_timeout : ℤ → BreakerOption
  with_half_open_max : ℤ → BreakerOption
  with_success_threshold : ℤ → BreakerOption
  with_on_state_change : Bool → BreakerOption
  with_failure_if : Option (Error → Bool) → BreakerOption
  with_count_canceled : BreakerOption
  with_op : String → BreakerOption

abbrev or_keep {ℓ} : {A : Type ℓ} → Option A → Option A → Option A
or_keep (some a) old = some a
or_keep none old = old

unfoldable pub apply : BreakerOption → Config → Config
apply (with_max_failures n) c = record c { max_failures = set_if_pos n c.max_failures }
apply (with_reset_timeout d) c = record c { reset_timeout = set_if_pos d c.reset_timeout }
apply (with_half_open_max n) c = record c { half_open_max = set_if_pos n c.half_open_max }
apply (with_success_threshold n) c = record c {
  success_threshold = set_if_pos n c.success_threshold;
}
apply (with_on_state_change set) c = record c {
  on_state_change = if set then true else c.on_state_change;
}
apply (with_failure_if fn) c = record c { failure_if = or_keep fn c.failure_if }
apply with_count_canceled c = record c { count_canceled = true }
apply (with_op op) c = record c { op = if is_empty op then c.op else op }

abbrev defaults : Config
defaults = record {
  max_failures = default_max_failures;
  reset_timeout = default_reset_timeout;
  half_open_max = default_half_open_max;
  success_threshold = default_success_threshold;
  on_state_change = false;
  failure_if = none;
  count_canceled = false;
  op = "";
}

-- The loop over the options; none is a nil option.
unfoldable pub apply_all : List (Option BreakerOption) → Config → Config
unfolding apply
apply_all [] c = c
apply_all (none ∷ opts) c = apply_all opts c
apply_all (some opt ∷ opts) c = apply_all opts (apply opt c)

abbrev floors : Config → Config
floors c = record c {
  max_failures = if ltb c.max_failures 1 then 1 else c.max_failures;
  reset_timeout = if ltb 0 c.reset_timeout then c.reset_timeout else default_reset_timeout;
  half_open_max = if ltb c.half_open_max 1 then 1 else c.half_open_max;
  success_threshold = if ltb c.success_threshold 1 then 1 else c.success_threshold;
}

unfoldable pub new_config : List (Option BreakerOption) → Config
unfolding apply_all
new_config opts = floors (apply_all opts defaults)

pub record IsUsable (c : Config) : Type 0 where
  pub trips : 0 < c.max_failures
  pub waits : 0 < c.reset_timeout
  pub probes : 0 < c.half_open_max
  pub heals : 0 < c.success_threshold

pub new_config-IsUsable : (opts : List (Option BreakerOption)) → IsUsable (new_config opts)
unfolding new_config
new_config-IsUsable opts = ground arith

unfoldable pub op_or_default : Config → String
op_or_default c = if is_empty c.op then "circuitx.Execute" else c.op

unfoldable pub op_or_default_try : Config → String
op_or_default_try c = if is_empty c.op then "circuitx.TryExecute" else c.op
