-- ===== src/Adaptx/Types.antt =====
-- The records of adaptx/adaptx.go and adaptx/types.go. `sem` is the number of values in the
-- semaphore's channel, whose buffer has `max_limit` places. `math.MaxFloat64`, the minimum of no
-- samples, is `none`; `minLat` and `avgLat` are exact fractions of a nanosecond. `increaseCredit` is
-- counted in parts, of which `increase_rate.den` make one: it only ever gets the rate and loses
-- whole numbers. Counters are bit patterns of 64 bits; the count in flight is exact.
use urx.Base.{ℕ, Bool, Option, List}
use urx.Base.Fractions.{Fraction}
use urx.Adaptx.Config.{Algorithm, Config}

pub record Sample : Type 0 where
  pub latency : ℕ
  pub ts : ℕ
  pub success : Bool

-- `samples`, `head`, `count` and `ringCap`.
pub record Ring : Type 0 where
  pub samples : List Sample
  pub head : ℕ
  pub count : ℕ
  pub ring_cap : ℕ

-- The counters of the window in progress.
pub record Window : Type 0 where
  pub rtt_sum : ℕ
  pub min_rtt : Option ℕ
  pub start : ℕ
  pub n : ℕ
  pub fails : ℕ
  pub max_in_flight : ℕ

pub record WindowSnap : Type 0 where
  pub n : ℕ
  pub fails : ℕ
  pub max_in_flight : ℕ
  pub mean_rtt : Fraction
  pub min_rtt : Option ℕ

pub record Counters : Type 0 where
  pub total : ℕ
  pub success : ℕ
  pub fail : ℕ
  pub rejected : ℕ
  pub incr : ℕ
  pub decr : ℕ

pub record Limiter : Type 0 where
  pub cfg : Config
  pub sem : ℕ
  pub in_flight : ℕ
  pub is_shut : Bool
  -- `drainCh` is closed
  pub drained : Bool
  pub counters : Counters
  pub limit : ℕ
  pub debt : ℕ
  pub avg_lat : Fraction
  pub min_lat : Option Fraction
  pub increase_credit : ℕ
  pub window : Window
  pub ring : Ring
  pub seen : ℕ

-- The two random numbers that one adjustment draws, from 0 and below 1.
pub record Draw : Type 0 where
  pub amount : Fraction
  pub coin : Fraction

-- A call of the hook with the old and the new limit.
pub record LimitChange : Type 0 where
  pub old_limit : ℕ
  pub new_limit : ℕ

-- The `execution` behind an `AdaptController`.
pub record Execution : Type 0 where
  pub limit : ℕ
  pub in_flight : ℕ
  pub algorithm : Algorithm
  pub skipped : Bool
