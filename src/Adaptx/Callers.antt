-- ===== src/Adaptx/Callers.antt =====
-- adaptx/adaptx.go: many callers of one limiter. A step is what a goroutine does to the permits, the
-- count in flight or the fields under the mutex without another in between; a section under the
-- mutex is one step.
use urx.Base.{
  ℕ, ◌==◌, Bool, true, false, Option, none, some, List, [], ◌∷◌, get_elem?, set, if◌then◌else◌,
}
use urx.Adaptx.Types.{Limiter, Draw, LimitChange}
use urx.Adaptx.Window.{record_outcome}
use urx.Adaptx.Limiter.{
  reject, take_permit, finish_acquire, leave, finish_release, begin_close, end_close, reset_stats,
}

-- Where a call stands: it has taken a permit and not yet looked whether the limiter is closed; its
-- work runs; its release has recorded the outcome; has counted it down, to 0 or not; has given the
-- permit back.
pub data Phase : Type 0 where
  taken working recorded : Phase
  leaving : Bool → Phase
  gone : Phase

pub record Callers : Type 0 where
  pub limiter : Limiter
  pub calls : List Phase
  pub changes : List LimitChange

pub data Event : Type 0 where
  -- a call of `Acquire` or `TryAcquire` finds a permit, or is turned away
  take turn_away : Event
  enter : ℕ → Event
  -- the release function of the call with this index, perhaps not for the first time, at a reading
  -- of the clock, with the draws, the success and the latency
  settle : ℕ → ℕ → Draw → Bool → ℕ → Event
  count_down give_back : ℕ → Event
  -- `CloseWithTimeout` before and after its wait
  shut drain : Event
  clear_stats : ℕ → Event

abbrev pub with_permit : Option Limiter → Callers → Callers
with_permit none c = record c { limiter = reject c.limiter }
with_permit (some l) c = record c { limiter = l; calls = taken ∷ c.calls }

abbrev pub entered : ℕ → Limiter × Bool → Callers → Callers
entered i (l, ok) c = record c { limiter = l; calls = set c.calls i (if ok then working else gone) }

abbrev pub settled : ℕ → Limiter × Option LimitChange → Callers → Callers
settled i (l, none) c = record c { limiter = l; calls = set c.calls i recorded }
settled i (l, some change) c = record {
  limiter = l;
  calls = set c.calls i recorded;
  changes = change ∷ c.changes;
}

abbrev pub counted_down : ℕ → Limiter → Callers → Callers
counted_down i l c = record c { limiter = l; calls = set c.calls i (leaving (l.in_flight == 0)) }

-- The steps of a call do something in their phase alone; a second release finds the flag set.
unfoldable pub enter_at : ℕ → Option Phase → Callers → Callers
unfolding finish_acquire
enter_at i (some taken) c = entered i (finish_acquire c.limiter) c
enter_at i _ c = c

unfoldable pub settle_at : ℕ → ℕ → Draw → Bool → ℕ → Option Phase → Callers → Callers
unfolding record_outcome
settle_at i now draw ok latency (some working) c =
    settled i (record_outcome now draw ok latency c.limiter) c
settle_at i now draw ok latency _ c = c

unfoldable pub count_down_at : ℕ → Option Phase → Callers → Callers
unfolding leave
count_down_at i (some recorded) c = counted_down i (leave c.limiter) c
count_down_at i _ c = c

unfoldable pub give_back_at : ℕ → Option Phase → Callers → Callers
unfolding finish_release
give_back_at i (some (leaving last)) c = record c {
  limiter = finish_release last c.limiter;
  calls = set c.calls i gone;
}
give_back_at i _ c = c

abbrev pub shut_with : Option Limiter → Callers → Callers
shut_with none c = c
shut_with (some l) c = record c { limiter = l }

unfoldable pub step : Event → Callers → Callers
unfolding take_permit enter_at settle_at count_down_at give_back_at begin_close end_close
    reset_stats
step take c = with_permit (take_permit c.limiter) c
step turn_away c = record c { limiter = reject c.limiter }
step (enter i) c = enter_at i (get_elem? c.calls i) c
step (settle i now draw ok latency) c = settle_at i now draw ok latency (get_elem? c.calls i) c
step (count_down i) c = count_down_at i (get_elem? c.calls i) c
step (give_back i) c = give_back_at i (get_elem? c.calls i) c
step shut c = shut_with (begin_close c.limiter) c
step drain c = if c.limiter.is_shut then record c { limiter = (end_close c.limiter).0 } else c
step (clear_stats now) c = record c { limiter = reset_stats now c.limiter }

abbrev pub run : List Event → Callers → Callers
run [] c = c
run (e ∷ es) c = run es (step e c)

abbrev pub holds_permit : Phase → Bool
holds_permit gone = false
holds_permit _ = true

abbrev pub is_in_flight : Phase → Bool
is_in_flight working = true
is_in_flight recorded = true
is_in_flight _ = false
