-- ===== src/Bulkx/Execute.antt =====
-- bulkx/bulkx.go and types.go: what a call of `Execute` or `TryExecute` gives its callback, and what it
-- returns.
use urx.Base.{ℕ, String, Bool, true, false, Option, none, some}
use urx.Base.Errors.{Error, Reason, cancelled, sentinel, wrap, bulkx}
use urx.Panix.Recover.{Outcome, safe}
use urx.Bulkx.Config.{op_or_default, op_or_default_try}
use urx.Bulkx.Bulkhead.{Bulkhead, Mode, trying, Ending, served, busy, counted, uncounted}

-- The `execution` behind a `BulkController`.
pub record Execution : Type 0 where
  pub active : ℕ
  pub max_concurrent : ℕ
  pub waited_slot : Bool

-- Right after the call was counted as active.
abbrev pub controller : Bool → Bulkhead → Execution
controller waited b = record {
  active = b.active;
  max_concurrent = b.cfg.max_concurrent;
  waited_slot = waited;
}

-- `cause` is the context's error.
abbrev pub error_of : Error → Reason → Error
error_of cause cancelled = wrap (sentinel bulkx cancelled) cause
error_of cause why = sentinel bulkx why

abbrev pub op_of : Mode → Bulkhead → String
op_of trying b = op_or_default_try b.cfg
op_of _ b = op_or_default b.cfg

-- Whether the callback ran, its value, and the error, by the end of the call.
unfoldable pub returned {ℓ} :
    {A : Type ℓ} → A → Error → String → Outcome A → Ending → Bool × A × Option Error
unfolding safe
returned zero_value cause op outcome served =
    let (val, err) = safe zero_value op outcome in (true, val, err)
returned zero_value cause op outcome busy = (false, zero_value, none)
returned zero_value cause op outcome (counted why) = (false, zero_value, some (error_of cause why))
returned zero_value cause op outcome (uncounted why) =
    (false, zero_value, some (error_of cause why))
