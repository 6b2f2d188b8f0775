-- ===== src/Circuitx/Types.antt =====
-- circuitx/types.go and the records of circuitx/circuitx.go and circuitx/options.go.
use urx.Base.{ℕ, String, Bool, Option, List}
use urx.Base.Errors.{Error}

-- `Closed`, `Open` and `HalfOpen`.
pub data State : Type 0 where
  closed opened half_open : State

unfoldable pub State_string : State → String
State_string closed = "closed"
State_string opened = "open"
State_string half_open = "half_open"

-- The resolved parameters. The integer fields are never negative, since an option sets one only
-- to a value above 0. Of the hook it is kept whether one is registered.
pub record Config : Type 0 where
  pub max_failures : ℕ
  pub reset_timeout : ℕ  -- nanoseconds
  pub half_open_max : ℕ
  pub success_threshold : ℕ
  pub on_state_change : Bool
  pub failure_if : Option (Error → Bool)
  pub count_canceled : Bool
  pub op : String

-- A call of the `onStateChange` hook.
pub record Transition : Type 0 where
  pub from : State
  pub to : State

pub record Breaker : Type 0 where
  pub cfg : Config
  pub state : State
  pub failures : ℕ  -- int32
  pub last_open : ℕ  -- nanoseconds since the epoch
  pub half_open_inflight : ℕ  -- int32
  pub half_open_successes : ℕ  -- int32
  pub generation : ℕ  -- uint64
  pub successes : ℕ  -- uint64
  pub total_fail : ℕ  -- uint64
  pub rejected : ℕ  -- uint64
  pub trips : ℕ  -- uint64
  pub is_shut : Bool  -- `closed`, set by `Close`
  -- the calls of the hook so far, the latest first
  pub fired : List Transition

-- The `execution` behind a `CircuitController`.
pub record Execution : Type 0 where
  pub state : State
  pub failures : ℕ
  pub max_failures : ℕ
  pub skip_failure : Bool
  pub tripped : Bool

pub record Stats : Type 0 where
  pub state : State
  pub failures : ℕ
  pub max_failures : ℕ
  pub successes : ℕ
  pub total_fail : ℕ
  pub rejected : ℕ
  pub trips : ℕ
