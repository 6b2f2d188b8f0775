-- ===== src/Shedx/Examples.antt =====
-- Runs of the shedder, and the theorems at concrete inputs: ten slots, and the default cutoffs.
use urx.Base.{
  ℕ, ◌+◌, ◌<◌, ◌≡◌, refl, true, false, Option, none, some, List, [], ◌∷◌, arith, count_if,
}
use urx.Base.Int.{pos}
use urx.Panix.Recover.{panics}
use urx.Shedx.Config.{
  ShedOption, with_capacity, with_hysteresis, low, normal, high, critical, new_config, IsUsable,
  new_config-IsUsable,
}
use urx.Shedx.Shedder.{new, admits, allow, runs_with, begin_execute, end_execute, release}
use urx.Shedx.Admission.{admits_mono}
use urx.Shedx.Callers.{Event, arrive, give_back, ask, Callers, run, step, is_held, is_ordinary}
use urx.Shedx.Inflight.{run-inflight}
use urx.Shedx.Slots.{execute-inflight}

program : Unit {0}
unfolding new new_config admits allow step begin_execute end_execute release
program = tt

abbrev opts : List (Option ShedOption)
opts = some (with_capacity (pos 10)) ∷ none ∷ some (with_hysteresis (pos 4)) ∷ []

abbrev start : Callers
start = record { shedder = new 1 opts; tokens = [] }

-- A token that is given back twice counts once.
abbrev events : List Event
events =
    arrive low false
    ∷ arrive critical false
    ∷ give_back 0
    ∷ give_back 0
    ∷ ask high
    ∷ arrive normal true
    ∷ []

events_inflight : (run events start).shedder.inflight ≡ 1
unfolding program
events_inflight = refl

run-inflight_example :
    let c = run events (record { shedder = new 1 opts; tokens = [] }) in
    (c.shedder.inflight ≡ count_if is_held c.tokens)
    × (count_if is_ordinary c.tokens < c.shedder.cfg.capacity)
run-inflight_example = run-inflight events 1 opts (omega arith)

new-IsUsable : IsUsable (new 1 opts).cfg
unfolding new
new-IsUsable = new_config-IsUsable 1 opts (omega arith)

low_in : (admits low 8 (new 1 opts)).1 ≡ true
unfolding program
low_in = refl

admits_mono_example : (admits normal 8 (new 1 opts)).1 ≡ true
admits_mono_example = admits_mono low normal 8 (new 1 opts) new-IsUsable (omega arith) low_in

runs : (begin_execute true none false low (new 1 opts)).1 ≡ runs_with 1
unfolding program
runs = refl

execute-inflight_example :
    let s' = (begin_execute true none false low (new 1 opts)).0 in
    (s'.inflight ≡ (new 1 opts).inflight + 1)
    × ((end_execute {A = ℕ} 0 "op" false true (panics 3) s').0.inflight ≡ (new 1 opts).inflight)
    × ((end_execute {A = ℕ} 0 "op" true true (panics 3) (release false s').0).0.inflight
        ≡ (new 1 opts).inflight)
execute-inflight_example =
    execute-inflight 0 "op" false true (panics 3) low (new 1 opts) 1 new-IsUsable runs
