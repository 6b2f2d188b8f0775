-- ===== src/Circuitx/Budget.antt =====
-- circuitx/circuitx.go: the probe budget of the half-open state under any interleaving of calls.
use urx.Base.{
  ℕ, ◌+◌, ◌≤◌, ◌<◌, ◌≡◌, ◌≢◌, refl, ◌⊎◌, inl, inr, true, false, Option, some, Option-cases,
  Bool-cases, if-intro, List, [], ◌∷◌, arith, if◌then◌else◌, length, get_elem?, set, erase_idx, All,
  All-set, All-erase_idx, All-map, All-get_elem?, count_if-set, count_if-erase_idx, u64_mod,
  lt_int32,
}
use urx.Base.Errors.{Error}
use urx.Circuitx.Breaker.{
  new, current_state, reset_stats, close, admit_in, release_probe, is_half_open_state, Admission,
}
use urx.Circuitx.Config.{BreakerOption, new_config}
use urx.Circuitx.Execute.{Call, controller, apply_calls}
use urx.Circuitx.System.{
  Ticket, System, Event, query, begin, finish, leave, force_reset, clear_stats, shut, step, run,
  start, is_probe, live_probes, begin_call, finish_call, leave_call,
}
use urx.Circuitx.Types.{State, closed, opened, half_open, Breaker}
use urx.Circuitx.Probes.{
  Inv, State-cases, settle-Keeps, current_state-Keeps, reset-Keeps, Keeps-Inv, current_state-state,
}

-- The breaker and the tickets after an admission.
abbrev entered : List Ticket → Breaker × Admission → System
entered ts (b, adm) =
    if adm.ok
    then record {
      breaker = b;
      tickets = record { controller = controller adm.state b; gen = adm.gen; settled = false } ∷ ts;
    }
    else record { breaker = b; tickets = ts }

-- Every call in flight was admitted in the epoch `g` or before.
abbrev AllUpTo : ℕ → List Ticket → Type 0
AllUpTo g = All (λ (t : Ticket). t.gen ≤ g)

admit_in-AllUpTo :
    (st : State) (b : Breaker) (ts : List Ticket)
    → AllUpTo b.generation ts
    → AllUpTo (entered ts (admit_in st b)).breaker.generation (entered ts (admit_in st b)).tickets
unfolding admit_in
admit_in-AllUpTo closed b ts h = (omega arith, h)
admit_in-AllUpTo opened b ts h = h
admit_in-AllUpTo half_open b ts h =
    elim (Bool-cases (lt_int32 b.half_open_inflight b.cfg.half_open_max)) [
      | inl e ↦ rw e (omega arith, h)
      | inr e ↦ rw e h
    ]

admit_in-Inv :
    (st : State) (b : Breaker) (ts : List Ticket)
    → st ≡ b.state
    → Inv (record { breaker = b; tickets = ts })
    → Inv (entered ts (admit_in st b))
unfolding admit_in controller
admit_in-Inv st b ts e i = record {
  narrow = ground arith;
  budget = ground (arith, i.budget);
  fresh = admit_in-AllUpTo st b ts i.fresh;
  covered = ground (arith, i.covered);
  exact = ground (arith, i.exact);
}

begin_call-entered :
    (now : ℕ) (s : System)
    → begin_call now s ≡ (
        if s.breaker.is_shut
        then s
        else entered s.tickets
            (admit_in (current_state now s.breaker).1 (current_state now s.breaker).0))
unfolding begin_call
begin_call-entered now s = refl

release-Inv :
    (b : Breaker) (ts : List Ticket) (i : ℕ) (t : Ticket)
    → get_elem? ts i ≡ some t
    → Inv (record { breaker = b; tickets = ts })
    → Inv (record {
      breaker = if is_half_open_state t.controller.state then release_probe t.gen b else b;
      tickets = erase_idx ts i;
    })
unfolding release_probe
release-Inv b ts i t e h = record {
  narrow = ground arith;
  budget = ground arith;
  fresh =
      All-map (λ (t : Ticket). t.gen ≤ b.generation) _ (erase_idx ts i) (λ u p. ground arith)
        (All-erase_idx (λ (t : Ticket). t.gen ≤ b.generation) ts i h.fresh);
  covered = ground (arith, count_if-erase_idx (is_probe b.generation) ts i t e);
  exact = ground (arith, count_if-erase_idx (is_probe b.generation) ts i t e);
}

mark-Inv :
    (b : Breaker) (ts : List Ticket) (i : ℕ) (t : Ticket)
    → get_elem? ts i ≡ some t
    → Inv (record { breaker = b; tickets = ts })
    → Inv (record { breaker = b; tickets = set ts i (record t { settled = true }) })
mark-Inv b ts i t e h = record {
  narrow = h.narrow;
  budget = h.budget;
  fresh =
      All-set (λ (t : Ticket). t.gen ≤ b.generation) ts i
        (All-get_elem? (λ (t : Ticket). t.gen ≤ b.generation) ts i t e h.fresh) h.fresh;
  covered =
      rw (count_if-set (is_probe b.generation) ts i t (record t { settled = true }) e refl)
        h.covered;
  exact =
      rw (count_if-set (is_probe b.generation) ts i t (record t { settled = true }) e refl) h.exact;
}

finish-Inv :
    (j now : ℕ) (calls : List Call) (err : Option Error) (s : System)
    → s.breaker.generation + 1 < u64_mod
    → Inv s
    → Inv (finish_call j now calls err s)
unfolding finish_call
finish-Inv j now calls err s w i = elim (Option-cases (get_elem? s.tickets j)) [
  | inl e ↦ rw (e, finish_call) i
  | inr (t, e) ↦
      rw (e, finish_call)
        (if-intro Inv t.settled _ _ i (
          Keeps-Inv s.breaker _ (set s.tickets j (record t { settled = true }))
            (settle-Keeps now t.gen (apply_calls calls t.controller) err s.breaker) w
            (mark-Inv s.breaker s.tickets j t e i)))
]

leave-Inv : (j : ℕ) (s : System) → Inv s → Inv (leave_call j s)
unfolding leave_call
leave-Inv j s i = elim (Option-cases (get_elem? s.tickets j)) [
  | inl e ↦ rw (e, leave_call) i
  | inr (t, e) ↦
      rw (e, leave_call) (if-intro Inv t.settled _ _ (release-Inv s.breaker s.tickets j t e i) i)
]

step-Inv : (e : Event) (s : System) → s.breaker.generation + 1 < u64_mod → Inv s → Inv (step e s)
unfolding step reset_stats close
step-Inv (query now) s w i = Keeps-Inv s.breaker _ s.tickets (current_state-Keeps now s.breaker) w i
step-Inv (begin now) s w i = rw (begin_call-entered now s) (
    if-intro Inv s.breaker.is_shut _ _ i (
      admit_in-Inv (current_state now s.breaker).1 (current_state now s.breaker).0 s.tickets
        (current_state-state now s.breaker)
        (Keeps-Inv s.breaker _ s.tickets (current_state-Keeps now s.breaker) w i)))
step-Inv (finish j now calls err) s w i = finish-Inv j now calls err s w i
step-Inv (leave j) s w i = leave-Inv j s i
step-Inv force_reset s w i = Keeps-Inv s.breaker _ s.tickets (reset-Keeps s.breaker) w i
step-Inv clear_stats s w i = record {
  narrow = i.narrow;
  budget = i.budget;
  fresh = i.fresh;
  covered = i.covered;
  exact = i.exact;
}
step-Inv shut s w i = record {
  narrow = i.narrow;
  budget = i.budget;
  fresh = i.fresh;
  covered = i.covered;
  exact = i.exact;
}

step-generation :
    (e : Event) (s : System) → (step e s).breaker.generation ≤ s.breaker.generation + 1
unfolding step
step-generation (query now) s = ground (arith, current_state-Keeps now s.breaker)
step-generation (begin now) s = ground arith
step-generation (finish j now calls err) s = elim (Option-cases (get_elem? s.tickets j)) [
  | inl e ↦ rw (e, finish_call) (omega arith)
  | inr (t, e) ↦
      rw (e, finish_call)
        (ground (arith, settle-Keeps now t.gen (apply_calls calls t.controller) err s.breaker))
]
step-generation (leave j) s = ground arith
step-generation force_reset s = ground arith
step-generation clear_stats s = ground arith
step-generation shut s = ground arith

run-Inv :
    (es : List Event) (s : System)
    → s.breaker.generation + length es < u64_mod
    → Inv s
    → Inv (run es s)
unfolding run
run-Inv [] s w i = i
run-Inv (e ∷ es) s w i =
    run-Inv es (step e s) (omega (arith, step-generation e s)) (step-Inv e s (omega arith) i)

exact_or :
    (s : System)
    → Inv s
    → (s.breaker.state ≢ half_open) ⊎ (live_probes s ≡ s.breaker.half_open_inflight)
exact_or s i = elim (State-cases s.breaker.state) [ inl e ↦ inr (i.exact e) | inr n ↦ inl n ]

-- For every sequence of events from a new breaker, shorter than a uint64 can count: the calls that
-- the present half-open epoch admitted as probes and that are still in flight are at most
-- `half_open_max`, and in the half-open state the breaker's counter is their exact number. (The
-- configured maximum is taken to fit an int32.)
pub run-probes-le_budget :
    (opts : List (Option BreakerOption)) (es : List Event)
    → (new_config opts).half_open_max < 2147483648
    → length es < u64_mod
    → let s = run es (start (new opts)) in
      (live_probes s ≤ s.breaker.cfg.half_open_max)
      × ((s.breaker.state ≢ half_open) ⊎ (live_probes s ≡ s.breaker.half_open_inflight))
unfolding new
run-probes-le_budget opts es n w =
    let i = run-Inv es (start (new opts)) (omega arith) (record {
      narrow = n;
      budget = omega arith;
      fresh = tt;
      covered = omega arith;
      exact = λ e. cc;
    }) in
    (omega (arith, i), exact_or (run es (start (new opts))) i)
