-- ===== src/Bulkx/Config.antt =====
-- bulkx/options.go. Durations are in nanoseconds.
use urx.Base.{
  ℕ, ◌<◌, String, Option, none, some, List, [], ◌∷◌, arith, if◌then◌else◌, is_empty, ltb,
}
use urx.Base.Int.{ℤ, pos, negsuc, set_if_pos}

pub record Config : Type 0 where
  pub max_concurrent : ℕ
  pub timeout : ℕ
  pub max_waiters : ℕ
  pub op : String

pub data BulkOption : Type 0 where
  with_max_concurrent with_timeout with_max_waiters : ℤ → BulkOption
  with_op : String → BulkOption

unfoldable pub apply : BulkOption → Config → Config
apply (with_max_concurrent n) c = record c { max_concurrent = set_if_pos n c.max_concurrent }
apply (with_timeout d) c = record c { timeout = set_if_pos d c.timeout }
apply (with_max_waiters n) c = record c { max_waiters = set_if_pos n c.max_waiters }
apply (with_op op) c = record c { op = if is_empty op then c.op else op }

unfoldable pub apply_all : List (Option BulkOption) → Config → Config
unfolding apply
apply_all [] c = c
apply_all (none ∷ opts) c = apply_all opts c
apply_all (some opt ∷ opts) c = apply_all opts (apply opt c)

abbrev pub defaults : Config
defaults = record { max_concurrent = 10; timeout = 30_000_000_000; max_waiters = 0; op = "" }

abbrev floor_concurrent : Config → Config
floor_concurrent c = record c {
  max_concurrent = if ltb c.max_concurrent 1 then 1 else c.max_concurrent;
}

unfoldable pub new_config : List (Option BulkOption) → Config
unfolding apply_all
new_config opts = floor_concurrent (apply_all opts defaults)

abbrev pub op_or_default : Config → String
op_or_default c = if is_empty c.op then "bulkx.Execute" else c.op

abbrev pub op_or_default_try : Config → String
op_or_default_try c = if is_empty c.op then "bulkx.TryExecute" else c.op

-- `slotWait`, by the time that remains until the context's deadline, if it has one.
unfoldable pub slot_wait : Option ℤ → ℕ → ℕ
slot_wait none timeout = timeout
slot_wait (some (pos remaining)) timeout = if ltb remaining timeout then remaining else timeout
slot_wait (some (negsuc n)) timeout = 0

-- Whatever options are given, there is a slot.
pub new_config_positive : (opts : List (Option BulkOption)) → 0 < (new_config opts).max_concurrent
unfolding new_config
new_config_positive opts = ground arith
