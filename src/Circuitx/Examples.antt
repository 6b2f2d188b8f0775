-- ===== src/Circuitx/Examples.antt =====
-- Runs of the circuit breaker, and the theorems at concrete inputs.
use urx.Base.{
  ℕ, ◌≤◌, ◌<◌, ◌≡◌, ◌≢◌, refl, ◌⊎◌, true, false, Option, none, some, List, [], ◌∷◌, arith, count_if,
}
use urx.Base.Errors.{foreign, canceled, panic_cause}
use urx.Base.Int.{pos}
use urx.Circuitx.Breaker.{new, is_open_state, try_admit}
use urx.Circuitx.Budget.{run-probes-le_budget}
use urx.Circuitx.Calls.{execute-panics}
use urx.Circuitx.Config.{
  BreakerOption, with_max_failures, with_reset_timeout, with_on_state_change,
  with_success_threshold, with_op, op_or_default,
}
use urx.Circuitx.Execute.{
  Effect, execute, try_execute, execute_run, controller, settle, apply_calls, counts_as_failure,
}
use urx.Circuitx.Hooks.{IsPath, run-IsPath}
use urx.Circuitx.Laws.{Ending, settle_all, successes, settle_all_lem, settle_all_heals}
use urx.Circuitx.Races.{
  schedule, overtaking, two_callers, is_admitted_probe, overtaking_exceeds_budget,
}
use urx.Circuitx.System.{Event, begin, finish, leave, run, start, live_probes}
use urx.Circuitx.Types.{Config, closed, opened, half_open, Breaker, Execution}
use urx.Panix.Recover.{panics_error, safe}

program : Unit {0}
unfolding new run execute_run execute try_execute controller settle safe try_admit schedule
program = tt

abbrev opts : List (Option BreakerOption)
opts =
    some (with_max_failures (pos 2))
    ∷ none
    ∷ some (with_reset_timeout (pos 10))
    ∷ some (with_on_state_change true)
    ∷ some (with_success_threshold (pos 2))
    ∷ some (with_op "api")
    ∷ []

-- Two failures trip; a probe after the timeout is admitted, a second one is not.
abbrev story : List Event
story =
    begin 0
    ∷ begin 0
    ∷ finish 0 1 [] (some (foreign 1))
    ∷ leave 0
    ∷ finish 0 2 [] (some (foreign 2))
    ∷ leave 0
    ∷ begin 5
    ∷ begin 12
    ∷ begin 13
    ∷ []

story_runs :
    let b = (run story (start (new opts))).breaker in
    (b.state ≡ half_open) × (b.rejected ≡ 2) × (b.half_open_inflight ≡ 1) × (b.trips ≡ 1)
unfolding program
story_runs = (refl, refl, refl, refl)

run-probes-le_budget_example :
    let s = run story (start (new opts)) in
    (live_probes s ≤ s.breaker.cfg.half_open_max)
    × ((s.breaker.state ≢ half_open) ⊎ (live_probes s ≡ s.breaker.half_open_inflight))
unfolding program
run-probes-le_budget_example = run-probes-le_budget opts story (omega arith) (omega arith)

run-IsPath_example : let b = (run story (start (new opts))).breaker in IsPath b.fired b.state
unfolding program
run-IsPath_example = run-IsPath opts story refl

abbrev cfg : Config
cfg = record {
  max_failures = 2;
  reset_timeout = 10;
  half_open_max = 1;
  success_threshold = 2;
  on_state_change = true;
  failure_if = none;
  count_canceled = false;
  op = "api";
}

abbrev fresh : Breaker
fresh = record {
  cfg = cfg;
  state = closed;
  failures = 0;
  last_open = 0;
  half_open_inflight = 0;
  half_open_successes = 0;
  generation = 0;
  successes = 0;
  total_fail = 0;
  rejected = 0;
  trips = 0;
  is_shut = false;
  fired = [];
}

new_is_fresh : new opts ≡ fresh
unfolding program
new_is_fresh = refl

abbrev tripped : Breaker
tripped = record fresh { state = opened; last_open = 5 }

abbrev probing : Breaker
probing = record fresh { state = half_open; generation = 1; half_open_inflight = 1 }

abbrev cc : Execution
cc = record {
  state = half_open;
  failures = 0;
  max_failures = 2;
  skip_failure = false;
  tripped = false;
}

abbrev endings : List Ending
endings =
    record { now = 3; err = some (foreign 1) }
    ∷ record { now = 2; err = none }
    ∷ record { now = 1; err = some (foreign 1) }
    ∷ []

settle_all_lem_example :
    let c = settle_all cc fresh endings in
    (is_open_state c.state ≡ false)
    × ((c.state ≡ opened) ⊎ ((c.state ≡ closed) × (c.failures ≡ 1) × (1 < 2)))
unfolding counts_as_failure
settle_all_lem_example =
    settle_all_lem cc fresh refl refl (omega arith) (omega arith) endings refl refl
      (refl, (tt, (refl, tt)))

settle_all_heals_example :
    let before = settle_all cc probing (successes 1) in
    let after = settle_all cc probing (successes 2) in
    (before.state ≡ half_open)
    × (before.half_open_successes ≡ 1)
    × (after.state ≡ closed)
    × (after.failures ≡ 0)
    × (after.generation ≡ 2)
settle_all_heals_example = settle_all_heals cc probing refl refl refl (omega arith) 1 refl

abbrev panicking : Execution → Breaker → Effect ℕ
panicking e b = record { breaker = b; calls = []; outcome = panics_error canceled }

execute-panics_example :
    let (b', val, err) = execute 0 3 4 none (some panicking) fresh in
    (val ≡ 0) × (err ≡ some (panic_cause (op_or_default cfg) canceled)) × (b'.total_fail ≡ 1)
unfolding controller apply_calls
execute-panics_example =
    execute-panics 0 3 4 panicking fresh (panic_cause (op_or_default cfg) canceled) refl refl refl
      refl

overtaking_exceeds_budget_example :
    count_if is_admitted_probe (schedule 20 overtaking (two_callers tripped)).threads ≡ 2
overtaking_exceeds_budget_example =
    overtaking_exceeds_budget 20 tripped refl refl refl (omega arith)
