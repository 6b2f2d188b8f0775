-- ===== src/Circuitx/Hooks.antt =====
-- circuitx/circuitx.go: the state machine's edges, as the `onStateChange` hook and the trip counter
-- see them, under any interleaving of calls.
use urx.Base.{
  ℕ, ◌+◌, ◌≡◌, refl, ◌⊎◌, inl, inr, Bool, true, false, Option, Option-cases, List, [], ◌∷◌, arith,
  if◌then◌else◌, get_elem?, count_if, All, u64,
}
use urx.Base.Errors.{Error}
use urx.Circuitx.Breaker.{new, current_state, reset, try_admit, release_probe, is_open_state}
use urx.Circuitx.Config.{BreakerOption, new_config}
use urx.Circuitx.Execute.{Call, settle, apply_calls}
use urx.Circuitx.System.{
  System, Event, query, begin, finish, leave, force_reset, clear_stats, shut, step, run, start,
  begin_call, finish_call, leave_call,
}
use urx.Circuitx.Types.{State, closed, opened, half_open, Breaker, Execution, Transition}

-- The diagram of the circuit's states. Only `Reset` goes from open to closed.
abbrev pub is_edge : State → State → Bool
is_edge closed opened = true
is_edge opened half_open = true
is_edge opened closed = true
is_edge half_open closed = true
is_edge half_open opened = true
is_edge _ _ = false

-- The transitions, the latest first, are a path through the diagram from closed to `s`.
abbrev pub IsPath : List Transition → State → Type 0
IsPath [] s = s ≡ closed
IsPath (t ∷ ts) s = (t.to ≡ s) × (is_edge t.from t.to ≡ true) × IsPath ts t.from

abbrev pub to_open : Transition → Bool
to_open t = is_open_state t.to

-- One operation makes at most one transition, and logs and counts just that one.
record Logged (b b' : Breaker) : Type 0 where
  cfg : b'.cfg ≡ b.cfg
  change :
      ((b'.state ≡ b.state) × (b'.fired ≡ b.fired) × (b'.trips ≡ b.trips))
      ⊎ ((is_edge b.state b'.state ≡ true)
          × (b'.fired ≡ record { from = b.state; to = b'.state } ∷ b.fired)
          × (b'.trips ≡ (if is_open_state b'.state then u64 (b.trips + 1) else b.trips)))

module _ (b : Breaker) (hook : b.cfg.on_state_change ≡ true) where
  settle-Logged :
      (now gen : ℕ) (cc : Execution) (err : Option Error) → Logged b (settle now gen cc err b)
  unfolding settle
  settle-Logged now gen cc err = ground arith

  current_state-Logged : (now : ℕ) → Logged b (current_state now b).0
  unfolding current_state
  current_state-Logged now = ground arith

  reset-Logged : Logged b (reset b)
  unfolding reset
  reset-Logged = ground arith

  release_probe-Logged : (gen : ℕ) → Logged b (release_probe gen b)
  unfolding release_probe
  release_probe-Logged gen = ground arith

  try_admit-Logged : (now : ℕ) → Logged b (try_admit now b).0
  unfolding try_admit
  try_admit-Logged now = ground arith

abbrev pub is_clear : Event → Bool
is_clear clear_stats = true
is_clear _ = false

unchanged-Logged :
    (b b' : Breaker)
    → b'.cfg ≡ b.cfg
    → b'.state ≡ b.state
    → b'.fired ≡ b.fired
    → b'.trips ≡ b.trips
    → Logged b b'
unchanged-Logged b b' c s f t = record { cfg = c; change = inl (s, f, t) }

module _ (s : System) (hook : s.breaker.cfg.on_state_change ≡ true) where
  begin-Logged : (now : ℕ) → Logged s.breaker (begin_call now s).breaker
  unfolding begin_call
  begin-Logged now = ground arith

  finish-Logged :
      (j now : ℕ) (calls : List Call) (err : Option Error)
      → Logged s.breaker (finish_call j now calls err s).breaker
  unfolding finish_call
  finish-Logged j now calls err = elim (Option-cases (get_elem? s.tickets j)) [
    | inl e ↦ rw (e, finish_call) (unchanged-Logged _ _ refl refl refl refl)
    | inr (t, e) ↦
        rw (e, finish_call)
          (ground
            (arith, settle-Logged s.breaker hook now t.gen (apply_calls calls t.controller) err))
  ]

  leave-Logged : (j : ℕ) → Logged s.breaker (leave_call j s).breaker
  unfolding leave_call
  leave-Logged j = elim (Option-cases (get_elem? s.tickets j)) [
    | inl e ↦ rw (e, leave_call) (unchanged-Logged _ _ refl refl refl refl)
    | inr (t, e) ↦ rw (e, leave_call) (ground (arith, release_probe-Logged s.breaker hook t.gen))
  ]

  step-Logged : (e : Event) → is_clear e ≡ false → Logged s.breaker (step e s).breaker
  unfolding step
  step-Logged (query now) n = current_state-Logged s.breaker hook now
  step-Logged (begin now) n = begin-Logged now
  step-Logged (finish j now calls err) n = finish-Logged j now calls err
  step-Logged (leave j) n = leave-Logged j
  step-Logged force_reset n = reset-Logged s.breaker hook
  step-Logged clear_stats n = cc
  step-Logged shut n = unchanged-Logged _ _ refl refl refl refl

Logged-IsPath : (b b' : Breaker) → Logged b b' → IsPath b.fired b.state → IsPath b'.fired b'.state
Logged-IsPath b b' l p = elim l.change [
  | inl (s, f, t) ↦ rw (s, f) p
  | inr (e, f, t) ↦ rw f (refl, e, p)
]

abbrev IsCounted : Breaker → Type 0
IsCounted b = b.trips ≡ u64 (count_if to_open b.fired)

Logged-IsCounted : (b b' : Breaker) → Logged b b' → IsCounted b → IsCounted b'
Logged-IsCounted b b' l c = elim l.change [
  | inl (s, f, t) ↦ rw (t, f) c
  | inr (e, f, t) ↦ rw (t, f) (ground arith)
]

step-IsPath :
    (e : Event) (s : System)
    → s.breaker.cfg.on_state_change ≡ true
    → IsPath s.breaker.fired s.breaker.state
    → ((step e s).breaker.cfg ≡ s.breaker.cfg)
      × IsPath (step e s).breaker.fired (step e s).breaker.state
unfolding step
step-IsPath clear_stats s hook p = (refl, p)
step-IsPath e s hook p = let l = step-Logged s hook e refl in (l.cfg, Logged-IsPath s.breaker _ l p)

run-IsPath' :
    (es : List Event) (s : System)
    → s.breaker.cfg.on_state_change ≡ true
    → IsPath s.breaker.fired s.breaker.state
    → IsPath (run es s).breaker.fired (run es s).breaker.state
unfolding run
run-IsPath' [] s hook p = p
run-IsPath' (e ∷ es) s hook p =
    let (c, q) = step-IsPath e s hook p in run-IsPath' es (step e s) (rw c hook) q

run-IsCounted :
    (es : List Event) (s : System)
    → s.breaker.cfg.on_state_change ≡ true
    → All (λ e. is_clear e ≡ false) es
    → IsCounted s.breaker
    → IsCounted (run es s).breaker
unfolding run
run-IsCounted [] s hook n c = c
run-IsCounted (e ∷ es) s hook n c =
    let l = step-Logged s hook e n.0 in
    run-IsCounted es (step e s) (rw l.cfg hook) n.1 (Logged-IsCounted s.breaker _ l c)

-- With a hook registered, and for every sequence of events from a new breaker, the hook's calls are
-- a path through the diagram of states: each begins in the state in which the one before ended, the
-- first in closed, the last ends in the present state, and each is an edge (closed to open, open to
-- half-open or closed, half-open to closed or open). So no edge is missed or reported twice.
pub run-IsPath :
    (opts : List (Option BreakerOption)) (es : List Event)
    → (new_config opts).on_state_change ≡ true
    → let b = (run es (start (new opts))).breaker in IsPath b.fired b.state
unfolding new
run-IsPath opts es hook = run-IsPath' es (start (new opts)) hook refl

-- With a hook registered, and as long as nobody calls `ResetStats`, the trip counter is the number
-- of the hook's calls that report a transition to open, modulo 2 ^ 64.
pub run-trips :
    (opts : List (Option BreakerOption)) (es : List Event)
    → (new_config opts).on_state_change ≡ true
    → All (λ e. is_clear e ≡ false) es
    → let b = (run es (start (new opts))).breaker in b.trips ≡ u64 (count_if to_open b.fired)
unfolding new
run-trips opts es hook n = run-IsCounted es (start (new opts)) hook n refl
