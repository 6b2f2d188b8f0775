-- ===== src/Circuitx/System.antt =====
-- circuitx/circuitx.go with many callers at once: a breaker with the calls that are in flight, and
-- the events by which goroutines drive it in any order. A method is one event, and a call of
-- `Execute` is three: its admission, the settlement after the callback, and the deferred release.
use urx.Base.{
  ℕ, Bool, true, false, ◌&&◌, Option, none, some, List, [], ◌∷◌, if◌then◌else◌, ◌==◌, get_elem?,
  set, erase_idx, count_if,
}
use urx.Base.Errors.{Error}
use urx.Circuitx.Breaker.{
  current_state, reset, reset_stats, close, try_admit, release_probe, is_half_open_state,
}
use urx.Circuitx.Execute.{Call, apply_calls, controller, settle}
use urx.Circuitx.Types.{Breaker, Execution}

-- A call that was admitted: its controller, the epoch of its admission, and whether it has settled.
pub record Ticket : Type 0 where
  pub controller : Execution
  pub gen : ℕ
  pub settled : Bool

pub record System : Type 0 where
  pub breaker : Breaker
  pub tickets : List Ticket

pub data Event : Type 0 where
  -- somebody calls `State`
  query : ℕ → Event
  -- `Execute` or `TryExecute` up to the callback, with the clock's reading
  begin : ℕ → Event
  -- the callback of the ticket with this index ends, after these calls of its controller
  finish : ℕ → ℕ → List Call → Option Error → Event
  -- the deferred release of the ticket with this index
  leave : ℕ → Event
  force_reset : Event
  clear_stats : Event
  shut : Event

unfoldable pub begin_call : ℕ → System → System
unfolding try_admit controller
begin_call now s =
    if s.breaker.is_shut
    then s
    else let (b, adm) = try_admit now s.breaker in
      if adm.ok
      then record {
        breaker = b;
        tickets =
            record { controller = controller adm.state b; gen = adm.gen; settled = false }
            ∷ s.tickets;
      }
      else record s { breaker = b }

-- Only a running call settles, and only a settled one leaves.
unfoldable pub finish_call : ℕ → ℕ → List Call → Option Error → System → System
unfolding settle apply_calls
finish_call i now calls err s = elim (get_elem? s.tickets i) [
  | none ↦ s
  | some t ↦ if t.settled then s else record {
    breaker = settle now t.gen (apply_calls calls t.controller) err s.breaker;
    tickets = set s.tickets i (record t { settled = true });
  }
]

unfoldable pub leave_call : ℕ → System → System
unfolding release_probe
leave_call i s = elim (get_elem? s.tickets i) [
  | none ↦ s
  | some t ↦
      if t.settled
      then record {
        breaker =
            if is_half_open_state t.controller.state
            then release_probe t.gen s.breaker
            else s.breaker;
        tickets = erase_idx s.tickets i;
      }
      else s
]

unfoldable pub step : Event → System → System
unfolding current_state reset reset_stats close begin_call finish_call leave_call
step (query now) s = record s { breaker = (current_state now s.breaker).0 }
step (begin now) s = begin_call now s
step (finish i now calls err) s = finish_call i now calls err s
step (leave i) s = leave_call i s
step force_reset s = record s { breaker = reset s.breaker }
step clear_stats s = record s { breaker = reset_stats s.breaker }
step shut s = record s { breaker = close s.breaker }

-- The events in order.
unfoldable pub run : List Event → System → System
unfolding step
run [] s = s
run (e ∷ es) s = run es (step e s)

abbrev pub start : Breaker → System
start b = record { breaker = b; tickets = [] }

-- A probe of the epoch `gen`.
abbrev pub is_probe : ℕ → Ticket → Bool
is_probe gen t = is_half_open_state t.controller.state && t.gen == gen

-- How many calls are in flight that the breaker's present half-open epoch admitted as probes.
abbrev pub live_probes : System → ℕ
live_probes s = count_if (is_probe s.breaker.generation) s.tickets
