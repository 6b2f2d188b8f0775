-- ===== src/Retryx/Config.antt =====
-- retryx/options.go. A number of attempts below 0 is kept as 0: the floor makes 1 of both. The clock
-- is no part of the configuration here, since its readings are arguments.
use urx.Base.{ℕ, String, Bool, Option, none, some, List, [], ◌∷◌, if◌then◌else◌, is_empty, ltb}
use urx.Base.Errors.{Error}
use urx.Base.Int.{ℤ, pos_part, set_if_pos}
use urx.Panix.Recover.{Outcome}

pub data JitterMode : Type 0 where
  multiplicative off equal : JitterMode

pub record Config : Type 0 where
  pub max_attempts : ℕ
  pub backoff : ℕ  -- nanoseconds
  pub max_backoff : ℕ
  pub max_elapsed : ℕ  -- 0 is none
  pub retry_if : Option (Error → Bool)
  -- how a call of the hook ends
  pub on_retry : Option (ℕ → Error → Outcome (Unit {0}))
  pub delay_func : Option (ℕ → Error → ℤ)
  pub op : String
  pub jitter_mode : JitterMode

abbrev pub default_max_attempts : ℕ
default_max_attempts = 3

abbrev pub default_backoff : ℕ
default_backoff = 100_000_000

abbrev pub default_max_backoff : ℕ
default_max_backoff = 10_000_000_000

abbrev pub min_attempts : ℕ
min_attempts = 1

pub data RetryOption : Type 0 where
  with_max_attempts : ℤ → RetryOption
  with_backoff : ℤ → RetryOption
  with_max_backoff : ℤ → RetryOption
  with_jitter : Bool → RetryOption
  with_equal_jitter : RetryOption
  with_max_elapsed : ℤ → RetryOption
  with_delay_func : Option (ℕ → Error → ℤ) → RetryOption
  with_retry_if : Option (Error → Bool) → RetryOption
  with_on_retry : Option (ℕ → Error → Outcome (Unit {0})) → RetryOption
  with_op : String → RetryOption

abbrev or_keep {ℓ} : {A : Type ℓ} → Option A → Option A → Option A
or_keep (some a) old = some a
or_keep none old = old

unfoldable pub apply : RetryOption → Config → Config
apply (with_max_attempts n) c = record c { max_attempts = pos_part n }
apply (with_backoff d) c = record c { backoff = set_if_pos d c.backoff }
apply (with_max_backoff d) c = record c { max_backoff = set_if_pos d c.max_backoff }
apply (with_jitter enabled) c = record c { jitter_mode = if enabled then multiplicative else off }
apply with_equal_jitter c = record c { jitter_mode = equal }
apply (with_max_elapsed d) c = record c { max_elapsed = set_if_pos d c.max_elapsed }
apply (with_delay_func fn) c = record c { delay_func = or_keep fn c.delay_func }
apply (with_retry_if fn) c = record c { retry_if = fn }
apply (with_on_retry fn) c = record c { on_retry = fn }
apply (with_op op) c = record c { op = if is_empty op then c.op else op }

abbrev pub defaults : Config
defaults = record {
  max_attempts = default_max_attempts;
  backoff = default_backoff;
  max_backoff = default_max_backoff;
  max_elapsed = 0;
  retry_if = none;
  on_retry = none;
  delay_func = none;
  op = "";
  jitter_mode = multiplicative;
}

unfoldable pub apply_all : List (Option RetryOption) → Config → Config
unfolding apply
apply_all [] c = c
apply_all (none ∷ opts) c = apply_all opts c
apply_all (some opt ∷ opts) c = apply_all opts (apply opt c)

abbrev floors : Config → Config
floors c = record c {
  max_attempts = if ltb c.max_attempts min_attempts then min_attempts else c.max_attempts;
}

unfoldable pub new_config : List (Option RetryOption) → Config
unfolding apply_all
new_config opts = floors (apply_all opts defaults)

unfoldable pub op_or_default : Config → String
op_or_default c = if is_empty c.op then "retryx.Do" else c.op
