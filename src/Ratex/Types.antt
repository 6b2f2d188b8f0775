-- ===== src/Ratex/Types.antt =====
-- ratex/types.go and the records of ratex/ratex.go and ratex/options.go. Go's floats are replaced by
-- exact numbers: a rate is a fraction of two positive numbers, and tokens are counted in grains, of
-- which a token has so many that a nanosecond brings a whole number of them.
use urx.Base.{ℕ, ◌*◌, Bool}

pub record Config : Type 0 where
  pub rate_num : ℕ  -- requests per `rate_den` seconds
  pub rate_den : ℕ
  pub burst : ℕ

pub record Limiter : Type 0 where
  pub cfg : Config
  pub tokens : ℕ  -- grains
  pub last_update : ℕ  -- nanoseconds
  pub allowed : ℕ  -- uint64
  pub limited : ℕ  -- uint64

-- How many grains make a token: a nanosecond brings `rate_num` of them.
abbrev pub grain : Config → ℕ
grain c = 1_000_000_000 * c.rate_den

-- The capacity of the bucket, in grains.
abbrev pub capacity : Config → ℕ
capacity c = c.burst * grain c

-- The `execution` behind a `RateController`.
pub record Execution : Type 0 where
  pub tokens : ℕ
  pub rate_num : ℕ
  pub rate_den : ℕ
  pub burst : ℕ
  pub waited : Bool
  pub skip_token : Bool

pub record Stats : Type 0 where
  pub rate_num : ℕ
  pub rate_den : ℕ
  pub burst : ℕ
  pub tokens : ℕ
  pub allowed : ℕ
  pub limited : ℕ

pub record WaitResult : Type 0 where
  pub remaining : ℕ
  pub waited : Bool
