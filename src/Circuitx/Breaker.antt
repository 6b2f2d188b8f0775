-- ===== src/Circuitx/Breaker.antt =====
-- circuitx/circuitx.go: the methods of `Breaker`, each run without interruption (Races has the
-- single atomic operations). A method returns the new breaker; the clock's reading is an argument.
use urx.Base.{
  ℕ, ◌+◌, Bool, true, false, not, ◌&&◌, ◌||◌, Option, List, [], ◌∷◌, if◌then◌else◌, ltb, ◌==◌, u32,
  u64, dec32, is_negative32, lt_int32,
}
use urx.Circuitx.Config.{BreakerOption, new_config}
use urx.Circuitx.Types.{State, closed, opened, half_open, Breaker, Stats}

unfoldable pub new : List (Option BreakerOption) → Breaker
unfolding new_config
new opts = record {
  cfg = new_config opts;
  state = closed;
  failures = 0;
  last_open = 0;
  half_open_inflight = 0;
  half_open_successes = 0;
  generation = 0;
  successes = 0;
  total_fail = 0;
  rejected = 0;
  trips = 0;
  is_shut = false;
  fired = [];
}

abbrev pub is_closed_state : State → Bool
is_closed_state closed = true
is_closed_state _ = false

abbrev pub is_open_state : State → Bool
is_open_state opened = true
is_open_state _ = false

abbrev pub is_half_open_state : State → Bool
is_half_open_state half_open = true
is_half_open_state _ = false

-- The hook runs under recover, so only that it was called is kept.
unfoldable pub fire_state_change : State → State → Breaker → Breaker
fire_state_change from to b =
    if b.cfg.on_state_change
    then record b { fired = record { from = from; to = to } ∷ b.fired }
    else b

-- `b.state.Swap(closed)` and the stores of `Reset`, and those of a promotion in `State`.
abbrev enter_epoch : State → Breaker → Breaker
enter_epoch s b = record b {
  state = s;
  generation = u64 (b.generation + 1);
  half_open_inflight = 0;
  half_open_successes = 0;
}

-- The method `State`: the circuit's state, after a promotion where the reset timeout has elapsed.
unfoldable pub current_state : ℕ → Breaker → Breaker × State
unfolding fire_state_change
current_state now b = elim b.state [
  | opened ↦
      if ltb now (b.last_open + b.cfg.reset_timeout)
      then (b, opened)
      else (fire_state_change opened half_open (enter_epoch half_open b), half_open)
  | closed ↦ (b, closed)
  | half_open ↦ (b, half_open)
]

unfoldable pub reset : Breaker → Breaker
unfolding fire_state_change
reset b =
    let b' = enter_epoch closed (record b { failures = 0 }) in
    if is_closed_state b.state then b' else fire_state_change b.state closed b'

unfoldable pub stats : Breaker → Stats
stats b = record {
  state = b.state;
  failures = b.failures;
  max_failures = b.cfg.max_failures;
  successes = b.successes;
  total_fail = b.total_fail;
  rejected = b.rejected;
  trips = b.trips;
}

unfoldable pub reset_stats : Breaker → Breaker
reset_stats b = record b { successes = 0; total_fail = 0; rejected = 0; trips = 0 }

unfoldable pub close : Breaker → Breaker
close b = record b { is_shut = true }

unfoldable pub try_admit_probe : Breaker → Breaker × Bool
try_admit_probe b =
    if lt_int32 b.half_open_inflight b.cfg.half_open_max
    then (record b { half_open_inflight = u32 (b.half_open_inflight + 1) }, true)
    else (b, false)

abbrev count_rejected : Breaker → Breaker
count_rejected b = record b { rejected = u64 (b.rejected + 1) }

-- What `tryAdmit` returns: the state and the epoch of the admission, and whether it is one.
pub record Admission : Type 0 where
  pub state : State
  pub gen : ℕ
  pub ok : Bool

-- The part of `tryAdmit` behind the load of the generation.
unfoldable pub admit_in : State → Breaker → Breaker × Admission
unfolding try_admit_probe
admit_in opened b = (count_rejected b, record { state = opened; gen = b.generation; ok = false })
admit_in half_open b =
    let (b', got) = try_admit_probe b in
    if got
    then (b', record { state = half_open; gen = b.generation; ok = true })
    else (count_rejected b', record { state = half_open; gen = b.generation; ok = false })
admit_in closed b = (b, record { state = closed; gen = b.generation; ok = true })

unfoldable pub try_admit : ℕ → Breaker → Breaker × Admission
unfolding current_state admit_in
try_admit now b = let (b', s) = current_state now b in admit_in s b'

unfoldable pub release_probe : ℕ → Breaker → Breaker
release_probe gen b =
    if gen == b.generation
    then (if b.half_open_inflight == 0 || is_negative32 b.half_open_inflight
        then b
        else record b { half_open_inflight = dec32 b.half_open_inflight })
    else b

-- `recordSuccess` under the lock, in the breaker's own epoch.
abbrev settle_success : State → Breaker → Breaker
settle_success half_open b =
    let count = u32 (b.half_open_successes + 1) in
    if lt_int32 count b.cfg.success_threshold
    then record b { half_open_successes = count }
    else fire_state_change half_open closed (record b {
      half_open_successes = 0;
      failures = 0;
      generation = u64 (b.generation + 1);
      state = closed;
    })
settle_success closed b = record b { failures = 0 }
settle_success opened b = b

-- The fast path returns where there is nothing to settle.
unfoldable pub record_success : ℕ → Breaker → Breaker
unfolding fire_state_change
record_success gen b =
    if is_closed_state b.state && b.failures == 0
    then b
    else if gen == b.generation
    then settle_success b.state b
    else b

-- The trip at the end of `recordFailure` and of `openFrom`.
abbrev trip : ℕ → Breaker → Breaker
trip now b = record b { state = opened; last_open = now; trips = u64 (b.trips + 1) }

unfoldable pub record_failure : ℕ → Bool → ℕ → Breaker → Breaker
unfolding fire_state_change
record_failure now forced gen b =
    let count = u32 (b.failures + 1) in
    let b' = record b {
      failures = count;
      half_open_successes = if is_half_open_state b.state then 0 else b.half_open_successes;
    } in
    if gen == b.generation && not (is_open_state b.state)
    then (if not forced && (is_closed_state b.state && lt_int32 count b.cfg.max_failures)
        then record b { failures = count }
        else fire_state_change b.state opened (trip now b'))
    else b

-- The hook is told the live state: `from` is the admission's state, replaced by the live one where
-- they differ.
unfoldable pub open_from : ℕ → ℕ → Breaker → Breaker
unfolding fire_state_change
open_from now gen b =
    if gen == b.generation && not (is_open_state b.state)
    then fire_state_change b.state opened (trip now b)
    else b
