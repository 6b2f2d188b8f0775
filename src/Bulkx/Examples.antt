-- ===== src/Bulkx/Examples.antt =====
-- Runs of the bulkhead, and the theorems at concrete inputs: one slot.
use urx.Base.{
  ℕ, ◌+◌, ◌≤◌, ◌≡◌, refl, true, false, Option, none, some, List, [], ◌∷◌, arith, count_if, ◌++◌,
  u64,
}
use urx.Base.Int.{pos, negsuc}
use urx.Bulkx.Config.{BulkOption, with_max_concurrent, with_max_waiters, new_config, slot_wait}
use urx.Bulkx.Bulkhead.{Bulkhead, acquiring, executing, trying, by_slot, new, arrive, busy, served}
use urx.Bulkx.Callers.{
  Event, begin, go, shut, Callers, step, run, in_slot, in_queue, in_work, past_gate, has,
}
use urx.Bulkx.Counts.{starts, run-slots}
use urx.Bulkx.Shutdown.{run-closed}
use urx.Bulkx.Alone.{advance_all}
use urx.Bulkx.Tally.{timed_out, turned_away, executed}
use urx.Bulkx.Statistics.{run-statistics}
use urx.Bulkx.Execute.{returned, op_of}
use urx.Panix.Recover.{returns, panics}
use urx.Base.Errors.{canceled, panic_value}

program : Unit {0}
unfolding new new_config step arrive advance_all slot_wait returned
program = tt

abbrev opts : List (Option BulkOption)
opts = some (with_max_concurrent (pos 1)) ∷ none ∷ some (with_max_waiters (negsuc 3)) ∷ []

abbrev steps : ℕ → List Event → List Event
steps i rest =
    go i false by_slot
    ∷ go i false by_slot
    ∷ go i false by_slot
    ∷ go i false by_slot
    ∷ go i false by_slot
    ∷ go i false by_slot
    ∷ go i false by_slot
    ∷ rest

-- A first call runs, a second one waits and a third one is turned away.
abbrev events : List Event
events =
    begin executing false
    ∷ steps 0 (
        begin acquiring false
        ∷ go 0 false by_slot
        ∷ go 0 false by_slot
        ∷ go 0 false by_slot
        ∷ go 0 false by_slot
        ∷ begin trying false
        ∷ go 0 false by_slot
        ∷ [])

abbrev ended : Callers
ended = run events (starts opts)

events_counts :
    (ended.bulkhead.active ≡ 1) × (ended.bulkhead.waiters ≡ 1) × (ended.bulkhead.rejected ≡ 1)
unfolding program
events_counts = (refl, refl, refl)

deadline_first : slot_wait (some (pos 5)) 9 ≡ 5
unfolding program
deadline_first = refl

run-slots_example :
    (ended.bulkhead.sem ≡ count_if (has in_slot) ended.calls)
    × (ended.bulkhead.waiters ≡ count_if (has in_queue) ended.calls)
    × (ended.bulkhead.active ≡ count_if (has in_work) ended.calls)
    × (ended.bulkhead.active ≤ ended.bulkhead.sem)
    × (ended.bulkhead.sem ≤ ended.bulkhead.cfg.max_concurrent)
run-slots_example = run-slots events opts

-- The bulkhead is closed; the running call ends, and the waiting one takes its slot and gives it
-- back.
abbrev closed : Callers
closed = step shut ended

closed_shut : closed.bulkhead.is_shut ≡ true
unfolding program
closed_shut = refl

abbrev after : List Event
after =
    go 2 false by_slot
    ∷ go 2 false by_slot
    ∷ go 1 false by_slot
    ∷ go 1 false by_slot
    ∷ go 1 false by_slot
    ∷ go 1 false by_slot
    ∷ begin acquiring false
    ∷ []

after_slots : ((run after closed).bulkhead.sem ≡ 0) × ((run after closed).bulkhead.waiters ≡ 0)
unfolding program
after_slots = (refl, refl)

run-closed_example :
    (count_if (has past_gate) (run after closed).calls ≤ count_if (has past_gate) closed.calls)
    × ((run after closed).bulkhead.is_shut ≡ true)
run-closed_example = run-closed after closed closed_shut

abbrev fresh : Bulkhead
fresh = new opts

fresh_shut : fresh.is_shut ≡ false
unfolding program
fresh_shut = refl

fresh_idle : (fresh.waiters ≡ 0) × (fresh.sem + 1 ≤ fresh.cfg.max_concurrent)
unfolding program
fresh_idle = (refl, omega arith)

-- A call that is cancelled, and one that runs.
abbrev mixed : List Event
mixed = begin executing true ∷ begin trying false ∷ []

mixed_counts : (run (mixed ++ steps 0 []) (starts opts)).bulkhead.executed ≡ 1
unfolding program
mixed_counts = refl

run-statistics_example :
    let c = run mixed (starts opts) in
    (c.bulkhead.timeouts ≡ u64 (count_if timed_out c.calls))
    × (c.bulkhead.rejected ≡ u64 (count_if turned_away c.calls))
    × (c.bulkhead.executed ≡ u64 (count_if executed c.calls))
run-statistics_example = run-statistics mixed opts (tt, (tt, tt))

busy_answer :
    returned {A = ℕ} 0 canceled (op_of trying ended.bulkhead) (returns 7 none) busy
    ≡ (false, 0, none)
unfolding program
busy_answer = refl

panic_answer :
    returned {A = ℕ} 0 canceled (op_of executing ended.bulkhead) (panics 3) served
    ≡ (true, 0, some (panic_value "bulkx.Execute" 3))
unfolding program
panic_answer = refl
