-- ===== src/Shedx/Tries.antt =====
-- shedx/shedx.go and types.go: `TryExecute`, what a callback sees, and the statistics.
use urx.Base.{
  ℕ, ◌-◌, ◌≡◌, refl, String, Bool, true, false, Option, none, some, if◌then◌else◌, if-both,
}
use urx.Base.Errors.{Error, sentinel, wrap, shedx, closed, nil_func, cancelled, rejected}
use urx.Shedx.Config.{Config, Priority, low, normal, high, critical, other}
use urx.Shedx.Shedder.{
  Shedder, Reservation, reserved, refused, shut_down, acquire, Started, refused_with, runs_with,
  started, begin_execute,
}

abbrev pub Priority_string : Priority → String
Priority_string low = "low"
Priority_string normal = "normal"
Priority_string high = "high"
Priority_string critical = "critical"
Priority_string (other n) = "unknown"

-- The `execution` behind a `ShedController`: the load is `in_flight` over `capacity`.
pub record Execution : Type 0 where
  pub priority : Priority
  pub in_flight : ℕ
  pub capacity : ℕ
  pub degraded : Bool
  pub released : Bool

-- `n` is the count with this call.
abbrev pub controller : Priority → ℕ → Config → Execution
controller p n c = record {
  priority = p;
  in_flight = n - 1;
  capacity = c.capacity;
  degraded = false;
  released = false;
}

-- The answer where the callback does not run, without an error for a request that is shed, or what it
-- runs with.
pub data Tried : Type 0 where
  turned_away : Option Error → Tried
  tries_with : ℕ → Tried

abbrev pub tried : Shedder × Reservation → Shedder × Tried
tried (s, reserved n) = (s, tries_with n)
tried (s, refused) = (s, turned_away none)
tried (s, shut_down) = (s, turned_away (some (sentinel shedx closed)))

-- The part of `TryExecute` before the callback.
unfoldable pub begin_try : Bool → Option Error → Bool → Priority → Shedder → Shedder × Tried
unfolding acquire
begin_try has_fn ctx_err shut p s =
    if s.is_shut
    then (s, turned_away (some (sentinel shedx closed)))
    else if has_fn
    then elim ctx_err [
      | some cause ↦ (s, turned_away (some (wrap (sentinel shedx cancelled) cause)))
      | none ↦ tried (acquire shut p s)
    ]
    else (s, turned_away (some (sentinel shedx nil_func)))

pub record Stats : Type 0 where
  pub capacity : ℕ
  pub threshold : ℕ
  pub cutoff_low : ℕ
  pub cutoff_normal : ℕ
  pub cutoff_high : ℕ
  pub in_flight : ℕ
  pub admitted : ℕ
  pub shed : ℕ
  pub degraded : ℕ

abbrev pub stats : Shedder → Stats
stats s = record {
  capacity = s.cfg.capacity;
  threshold = s.cfg.threshold;
  cutoff_low = s.cfg.cutoff_low;
  cutoff_normal = s.cfg.cutoff_normal;
  cutoff_high = s.cfg.cutoff_high;
  in_flight = s.inflight;
  admitted = s.admitted;
  shed = s.shed;
  degraded = s.degraded;
}

-- How `TryExecute` reports what `Execute` does.
abbrev pub reported : Started → Tried
reported (runs_with n) = tries_with n
reported (refused_with (sentinel shedx rejected)) = turned_away none
reported (refused_with e) = turned_away (some e)

abbrev Agrees : Shedder × Tried → Shedder × Started → Type 0
Agrees (s, t) (s', e) = (s ≡ s') × (t ≡ reported e)

tried-started : (x : Shedder × Reservation) → Agrees (tried x) (started x)
tried-started (s, reserved n) = (refl, refl)
tried-started (s, refused) = (refl, refl)
tried-started (s, shut_down) = (refl, refl)

-- `TryExecute` decides and counts as `Execute` does, whatever the shedder, the context and the request:
-- it leaves the same shedder, and differs only in that a request that is shed has no error.
pub begin_try-begin_execute :
    (has_fn : Bool) (ctx_err : Option Error) (shut : Bool) (p : Priority) (s : Shedder)
    → let (s', t) = begin_try has_fn ctx_err shut p s in
      let (s'', e) = begin_execute has_fn ctx_err shut p s in (s' ≡ s'') × (t ≡ reported e)
unfolding begin_try begin_execute
begin_try-begin_execute false ctx_err shut p s =
    if-both Agrees s.is_shut _ _ _ _ (refl, refl) (refl, refl)
begin_try-begin_execute true (some cause) shut p s =
    if-both Agrees s.is_shut _ _ _ _ (refl, refl) (refl, refl)
begin_try-begin_execute true none shut p s =
    if-both Agrees s.is_shut _ _ _ _ (refl, refl) (tried-started (acquire shut p s))
