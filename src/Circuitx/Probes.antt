-- ===== src/Circuitx/Probes.antt =====
-- circuitx/circuitx.go: what the probe budget rests on, and the operations that keep it without a
-- call of their own.
use urx.Base.{
  ℕ, ◌+◌, ◌≤◌, ◌<◌, ◌≡◌, ◌≢◌, refl, ◌⊎◌, inl, inr, Option, List, [], ◌∷◌, arith, count_if, All,
  All-map, u64, u64_mod,
}
use urx.Base.Errors.{Error}
use urx.Circuitx.Breaker.{current_state, reset}
use urx.Circuitx.Execute.{settle}
use urx.Circuitx.System.{Ticket, System, is_probe, live_probes}
use urx.Circuitx.Types.{State, closed, opened, half_open, Breaker, Execution}

pub State-cases : (s : State) → (s ≡ half_open) ⊎ (s ≢ half_open)
State-cases half_open = inl refl
State-cases closed = inr (λ e. cc)
State-cases opened = inr (λ e. cc)

pub record Inv (s : System) : Type 0 where
  pub narrow : s.breaker.cfg.half_open_max < 2147483648
  pub budget : s.breaker.half_open_inflight ≤ s.breaker.cfg.half_open_max
  pub fresh : All (λ (t : Ticket). t.gen ≤ s.breaker.generation) s.tickets
  pub covered : live_probes s ≤ s.breaker.half_open_inflight
  pub exact : s.breaker.state ≡ half_open → live_probes s ≡ s.breaker.half_open_inflight

-- No call in flight belongs to an epoch that is still to come.
pub no_future_probe :
    (g h : ℕ) (ts : List Ticket)
    → All (λ (t : Ticket). t.gen ≤ g) ts
    → g < h
    → count_if (is_probe h) ts ≡ 0
no_future_probe g h [] a l = refl
no_future_probe g h (t ∷ ts) a l = ground (arith, no_future_probe g h ts a.1 l)

-- What an operation without a ticket of its own does to the budget's fields.
pub record Keeps (b b' : Breaker) : Type 0 where
  pub cfg : b'.cfg ≡ b.cfg
  pub moved :
      ((b'.generation ≡ b.generation)
        × (b'.half_open_inflight ≡ b.half_open_inflight)
        × (b'.state ≡ half_open → b.state ≡ half_open))
      ⊎ ((b'.generation ≡ u64 (b.generation + 1)) × (b'.half_open_inflight ≡ 0))
      ⊎ ((b'.generation ≡ u64 (b.generation + 1))
          × (b'.half_open_inflight ≡ b.half_open_inflight)
          × (b'.state ≡ closed))

pub settle-Keeps :
    (now gen : ℕ) (cc : Execution) (err : Option Error) (b : Breaker)
    → Keeps b (settle now gen cc err b)
unfolding settle
settle-Keeps now gen cc err b = ground arith

pub current_state-Keeps : (now : ℕ) (b : Breaker) → Keeps b (current_state now b).0
unfolding current_state
current_state-Keeps now b = ground arith

pub reset-Keeps : (b : Breaker) → Keeps b (reset b)
unfolding reset
reset-Keeps b = ground arith

pub Keeps-Inv :
    (b b' : Breaker) (ts : List Ticket)
    → Keeps b b'
    → b.generation + 1 < u64_mod
    → Inv (record { breaker = b; tickets = ts })
    → Inv (record { breaker = b'; tickets = ts })
Keeps-Inv b b' ts k w i = record {
  narrow = ground arith;
  budget = ground arith;
  fresh =
      All-map (λ (t : Ticket). t.gen ≤ b.generation) (λ (t : Ticket). t.gen ≤ b'.generation) ts
        (λ t h. ground arith) i.fresh;
  covered = elim k.moved [
    | inl (g, p, st) ↦ rw g (ground arith)
    | inr later ↦ ground (arith, no_future_probe b.generation b'.generation ts i.fresh)
  ];
  exact = elim k.moved [
    | inl (g, p, st) ↦ rw g (ground arith)
    | inr later ↦ λ e. ground (arith, no_future_probe b.generation b'.generation ts i.fresh)
  ];
}

pub current_state-state :
    (now : ℕ) (b : Breaker) → (current_state now b).1 ≡ (current_state now b).0.state
unfolding current_state
current_state-state now b = ground arith
