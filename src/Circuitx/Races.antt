-- ===== src/Circuitx/Races.antt =====
-- circuitx/circuitx.go, one atomic operation at a time: `State`, `tryAdmit` and `tryAdmitProbe` as
-- goroutines run them. The promotion in `State` is not under the mutex: between its
-- compare-and-swap and its stores others already see the half-open state.
use urx.Base.{
  ℕ, ◌+◌, ◌≤◌, ◌≡◌, Bool, true, false, none, some, List, [], ◌∷◌, if◌then◌else◌, ltb, ◌==◌, u32,
  u64, lt_int32, get_elem?, set, count_if, arith,
}
use urx.Circuitx.Breaker.{fire_state_change, is_open_state}
use urx.Circuitx.Types.{State, closed, opened, half_open, Breaker}

-- Where a goroutine in `tryAdmit` stands: each is the atomic operation that it makes next.
pub data Position : Type 0 where
  load_state : Position
  check_time : Position
  swap_state : Position
  bump_generation : Position
  store_inflight : Position
  store_successes : Position
  report : Position
  reload_state : Position
  load_generation : State → Position
  -- the load of `tryAdmitProbe`, and its compare-and-swap with the value loaded
  load_inflight : ℕ → Position
  swap_inflight : ℕ → ℕ → Position
  admitted : State → ℕ → Position
  turned_away : Position

abbrev after_load : State → Position
after_load opened = check_time
after_load closed = load_generation closed
after_load half_open = load_generation half_open

abbrev reject : Breaker → Breaker × Position
reject b = (record b { rejected = u64 (b.rejected + 1) }, turned_away)

abbrev after_generation : State → ℕ → Breaker → Breaker × Position
after_generation opened gen b = reject b
after_generation half_open gen b = (b, load_inflight gen)
after_generation closed gen b = (b, admitted closed gen)

-- One operation, with the clock's reading `now`.
unfoldable pub advance : ℕ → Position → Breaker → Breaker × Position
unfolding fire_state_change
advance now load_state b = (b, after_load b.state)
advance now check_time b =
    (b, if ltb now (b.last_open + b.cfg.reset_timeout) then load_generation opened else swap_state)
advance now swap_state b =
    if is_open_state b.state
    then (record b { state = half_open }, bump_generation)
    else (b, reload_state)
advance now bump_generation b = (record b { generation = u64 (b.generation + 1) }, store_inflight)
advance now store_inflight b = (record b { half_open_inflight = 0 }, store_successes)
advance now store_successes b = (record b { half_open_successes = 0 }, report)
advance now report b = (fire_state_change opened half_open b, load_generation half_open)
advance now reload_state b = (b, load_generation b.state)
advance now (load_generation s) b = after_generation s b.generation b
advance now (load_inflight gen) b =
    if lt_int32 b.half_open_inflight b.cfg.half_open_max
    then (b, swap_inflight gen b.half_open_inflight)
    else reject b
advance now (swap_inflight gen cur) b =
    if b.half_open_inflight == cur
    then (record b { half_open_inflight = u32 (cur + 1) }, admitted half_open gen)
    else (b, load_inflight gen)
advance now (admitted s gen) b = (b, admitted s gen)
advance now turned_away b = (b, turned_away)

pub record Machine : Type 0 where
  pub breaker : Breaker
  pub threads : List Position

-- The goroutine with this index makes its next operation.
unfoldable pub tick : ℕ → ℕ → Machine → Machine
unfolding advance
tick now i m = elim (get_elem? m.threads i) [
  | none ↦ m
  | some p ↦
      let (b, p') = advance now p m.breaker in record { breaker = b; threads = set m.threads i p' }
]

unfoldable pub schedule : ℕ → List ℕ → Machine → Machine
unfolding tick
schedule now [] m = m
schedule now (i ∷ is) m = schedule now is (tick now i m)

abbrev pub is_admitted_probe : Position → Bool
is_admitted_probe (admitted half_open gen) = true
is_admitted_probe _ = false

-- The first goroutine swaps the state; the second is admitted as a probe; then the first clears the
-- counter that the second has raised, and is admitted too.
abbrev pub overtaking : List ℕ
overtaking = 0 ∷ 0 ∷ 0 ∷ 1 ∷ 1 ∷ 1 ∷ 1 ∷ 0 ∷ 0 ∷ 0 ∷ 0 ∷ 0 ∷ 0 ∷ 0 ∷ []

abbrev pub two_callers : Breaker → Machine
two_callers b = record { breaker = b; threads = load_state ∷ load_state ∷ [] }

-- From every open breaker whose reset timeout has elapsed, with a budget of one probe and none in
-- flight, two callers can both be admitted as probes.
pub overtaking_exceeds_budget :
    (now : ℕ) (b : Breaker)
    → b.state ≡ opened
    → b.cfg.half_open_max ≡ 1
    → b.half_open_inflight ≡ 0
    → b.last_open + b.cfg.reset_timeout ≤ now
    → count_if is_admitted_probe (schedule now overtaking (two_callers b)).threads ≡ 2
unfolding schedule
overtaking_exceeds_budget now b s m i l = ground arith
