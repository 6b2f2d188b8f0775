-- ===== src/Adaptx/Limiter.antt =====
-- adaptx/adaptx.go: the limiter's methods, and the parts of them between which other goroutines
-- may run.
use urx.Base.{
  ℕ, zero, suc, ◌+◌, ◌-◌, Bool, true, false, ◌&&◌, Option, none, some, List, map, if◌then◌else◌,
  ltb, ◌==◌, replicate, u64,
}
use urx.Base.Errors.{
  Error, deadline_exceeded, wrap, sentinel, adaptx, timeout, cancelled, drain_timeout,
}
use urx.Base.Fractions.{whole}
use urx.Adaptx.Config.{LimiterOption, new_config, ring_capacity}
use urx.Adaptx.Types.{Sample, Counters, Limiter, Draw, LimitChange}
use urx.Adaptx.Control.{send, send_all}
use urx.Adaptx.Window.{fresh_window, record_outcome}

abbrev pub empty_sample : Sample
empty_sample = record { latency = 0; ts = 0; success = false }

abbrev pub no_counts : Counters
no_counts = record { total = 0; success = 0; fail = 0; rejected = 0; incr = 0; decr = 0 }

unfoldable pub new : ℕ → List (Option LimiterOption) → Limiter
unfolding new_config ring_capacity send_all
new now opts =
    let cfg = new_config opts in
    record {
      cfg = cfg;
      sem = send_all cfg.max_limit cfg.initial_limit 0;
      in_flight = 0;
      is_shut = false;
      drained = false;
      counters = no_counts;
      limit = cfg.initial_limit;
      debt = 0;
      avg_lat = whole 0;
      min_lat = none;
      increase_credit = 0;
      window = fresh_window now;
      ring = record {
        samples = replicate (ring_capacity cfg) empty_sample;
        head = 0;
        count = 0;
        ring_cap = ring_capacity cfg;
      };
      seen = 0;
    }

unfoldable pub allow : Limiter → Bool
allow l = if l.is_shut then false else ltb 0 (l.limit - l.in_flight)

abbrev pub reject : Limiter → Limiter
reject l = record l { counters = record l.counters { rejected = u64 (l.counters.rejected + 1) } }

unfoldable pub ctx_err : Error → Error
ctx_err deadline_exceeded = wrap (sentinel adaptx timeout) deadline_exceeded
ctx_err err = wrap (sentinel adaptx cancelled) err

-- The `select` on the semaphore, by the number of values in it: the permit is the caller's.
abbrev pub take_from : ℕ → Limiter → Option Limiter
take_from zero l = none
take_from (suc n) l = some (record l { sem = n })

unfoldable pub take_permit : Limiter → Option Limiter
take_permit l = take_from l.sem l

unfoldable pub return_permit : Limiter → Limiter
return_permit l = record l { sem = send l.cfg.max_limit l.sem }

unfoldable pub admit : Limiter → Limiter
admit l = record l {
  in_flight = l.in_flight + 1;
  counters = record l.counters { total = u64 (l.counters.total + 1) };
}

-- The second half of `Acquire` and `TryAcquire`, with the permit in hand: is the call admitted?
unfoldable pub finish_acquire : Limiter → Limiter × Bool
unfolding return_permit admit
finish_acquire l = if l.is_shut then (reject (return_permit l), false) else (admit l, true)

unfoldable pub release_permit : Limiter → Limiter
release_permit l =
    if ltb 0 l.debt
    then record l { debt = l.debt - 1 }
    else record l { sem = send l.cfg.max_limit l.sem }

unfoldable pub signal_drain_if_idle : Limiter → Limiter
signal_drain_if_idle l = if l.is_shut && l.in_flight == 0 then record l { drained = true } else l

-- `l.inFlight.Add(-1)`: the release gives its count in flight back before its permit.
unfoldable pub leave : Limiter → Limiter
leave l = record l { in_flight = l.in_flight - 1 }

-- The end of a release; `last` says whether its decrement reached 0.
unfoldable pub finish_release : Bool → Limiter → Limiter
unfolding release_permit signal_drain_if_idle
finish_release last l = if last then signal_drain_if_idle (release_permit l) else release_permit l

-- The first call of the function that `admit` returns, where no other goroutine runs in between.
unfoldable pub release : ℕ → Draw → Bool → ℕ → Limiter → Limiter × Option LimitChange
unfolding record_outcome leave finish_release
release now draw success latency l =
    let (recorded, change) = record_outcome now draw success latency l in
    let left = leave recorded in (finish_release (left.in_flight == 0) left, change)

abbrev pub drain_semaphore : Limiter → Limiter
drain_semaphore l = record l { sem = 0 }

-- `CloseWithTimeout` before the wait; `none` where the limiter was closed before.
unfoldable pub begin_close : Limiter → Option Limiter
unfolding signal_drain_if_idle
begin_close l =
    if l.is_shut then none else some (signal_drain_if_idle (record l { is_shut = true }))

-- After the wait.
unfoldable pub end_close : Limiter → Limiter × Option Error
end_close l =
    let l' = drain_semaphore l in
    (l', if ltb 0 l'.in_flight then some (sentinel adaptx drain_timeout) else none)

-- `Close`: nothing waits, and an error is dropped.
unfoldable pub close : Limiter → Limiter
unfolding begin_close end_close
close l = elim (begin_close l) [ none ↦ l | some l' ↦ (end_close l').0 ]

unfoldable pub reconcile_permits : Limiter → Limiter
unfolding send_all
reconcile_permits l = record l { sem = send_all l.cfg.max_limit (l.limit - l.in_flight) 0 }

unfoldable pub reset_stats : ℕ → Limiter → Limiter
unfolding reconcile_permits
reset_stats now l =
    let reset_limit =
      if ltb l.cfg.initial_limit l.in_flight then l.in_flight else l.cfg.initial_limit in
    let restarted = record l {
      limit = reset_limit;
      debt = 0;
      avg_lat = whole 0;
      min_lat = none;
      increase_credit = 0;
      ring = record l.ring {
        samples = map (λ (s : Sample). empty_sample) l.ring.samples;
        head = 0;
        count = 0;
      };
      seen = 0;
      window = fresh_window now;
    } in
    record (reconcile_permits restarted) { counters = no_counts }
