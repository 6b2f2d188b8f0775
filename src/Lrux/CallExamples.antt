-- ===== src/Lrux/CallExamples.antt =====
-- Runs of `GetOrCompute`, and its theorem at concrete inputs: numbers as keys and values.
use urx.Base.{ℕ, ◌≡◌, refl, Bool, true, false, none, some, arith, ◌==◌}
use urx.Base.Errors.{canceled, panic_value}
use urx.Base.Int.{pos}
use urx.Lrux.Config.{ComputeConfig}
use urx.Panix.Recover.{Outcome, returns, panics, safe}
use urx.Lrux.Types.{Cache}
use urx.Lrux.Cache.{new, set_with_ttl, expire_time}
use urx.Lrux.Nodes.{IsEquality}
use urx.Lrux.Compute.{Clock, Looks, get_or_compute}
use urx.Lrux.Computed.{get_or_compute-get_or_compute}

program : Unit {0}
unfolding new set_with_ttl get_or_compute expire_time safe
program = tt

abbrev same : ℕ → ℕ → Bool
same a b = a == b

same-IsEquality : IsEquality same
same-IsEquality = record { reflexive = λ a. ground arith; sound = λ a b h. ground (arith, h) }

-- One entry at most.
abbrev filled : Cache ℕ ℕ
filled = set_with_ttl same 5 7 70 (pos 0) (new (pos 1) (pos 100) true)

abbrev at : ℕ → Clock
at t = record {
  checked = t;
  promoted = t;
  rechecked = t;
  moved = t;
  last_checked = t;
  inserted = t;
}

abbrev live : Looks
live = record { first = none; before = none; after = none }

abbrev plain : ComputeConfig
plain = record { ttl = 0; singleflight = false }

abbrev shares : ComputeConfig
shares = record { ttl = 0; singleflight = true }

abbrev ending : Outcome ℕ → Cache ℕ ℕ → Cache ℕ ℕ × Outcome ℕ
ending outcome c = (c, outcome)

computed_once :
    let (c, v, err) =
      get_or_compute same 0 plain (at 10) live 3 (ending (returns 300 none)) none filled in
    (v ≡ 300) × (err ≡ none) × (c.misses ≡ 1) × (c.evictions ≡ 1)
unfolding program
computed_once = (refl, refl, refl, refl)

panic_caches_nothing :
    let (c, v, err) = get_or_compute same 0 plain (at 10) live 3 (ending (panics 1)) none filled in
    (err ≡ some (panic_value "lrux.GetOrCompute" 1)) × (c.nodes ≡ filled.nodes)
unfolding program
panic_caches_nothing = (refl, refl)

late_cancel :
    let (c, v, err) =
      get_or_compute same 0 plain
        (at 10)
        (record { first = none; before = none; after = some canceled })
        3
        (ending (returns 300 none))
        none
        filled in
    (err ≡ some canceled) × (c.nodes ≡ filled.nodes)
unfolding program
late_cancel = (refl, refl)

-- Under `WithSingleflight`: a call that runs the function, and one that gets another call's value.
shared_leader :
    let (c, v, err) =
      get_or_compute same 0 shares (at 10) live 3 (ending (returns 300 none)) none filled in
    (v ≡ 300) × (err ≡ none) × (c.misses ≡ 1) × (c.evictions ≡ 1)
unfolding program
shared_leader = (refl, refl, refl, refl)

shared_follower :
    let (c, v, err) =
      get_or_compute same 0 shares
        (at 10)
        live
        3
        (ending (returns 300 none))
        (some (400, none))
        filled in
    (v ≡ 400) × (err ≡ none) × (c.misses ≡ 0) × (c.nodes ≡ filled.nodes)
unfolding program
shared_follower = (refl, refl, refl, refl)

get_or_compute-get_or_compute_example :
    let (c', v, err) =
      get_or_compute same 0 plain (at 10) live 3 (ending (returns 300 none)) none filled in
    let (c'', v', err') =
      get_or_compute same 0 plain (at 20) live 3 (ending (returns 301 none)) none c' in
    (v ≡ 300) × (err ≡ none) × (v' ≡ 300) × (err' ≡ none)
unfolding program
get_or_compute-get_or_compute_example =
    get_or_compute-get_or_compute same 0 same-IsEquality plain plain (at 10) (at 20) live live 3
      (ending (returns 300 none)) (ending (returns 301 none)) none none filled
      (record filled { misses = 1 }) 300 refl (refl, refl, refl) (refl, refl, refl) refl refl refl
      refl refl refl
