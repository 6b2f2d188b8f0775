-- ===== src/Bulkx/Tally.antt =====
-- bulkx/bulkx.go: what the statistics count, under any interleaving.
use urx.Base.{ℕ, ◌+◌, ◌≡◌, ◌⊎◌, inl, inr, refl, Bool, true, false, u64}
use urx.Base.Errors.{timeout}
use urx.Bulkx.Bulkhead.{
  Bulkhead, Mode, Ending, served, busy, counted, Phase, refunding, departing, working, releasing,
  gone,
}
use urx.Bulkx.Turns.{
  Turn, is_clear, is_crowded, gives_way, takes, is_full, gives_up, is_barging, is_first, yields,
  yields_all, overflows, joins, sleeps, is_handed, is_cancelled, is_closed, times_out, finds_shut,
  finds_open, finds_done, finds_alive, refunds_queued, refunds, is_served, goes_on, departs, holds,
  starts, ends_work, frees, rests, has_callback,
}
use urx.Bulkx.Callers.{Call}

abbrev pub is_timeout : Ending → Bool
is_timeout (counted timeout) = true
is_timeout _ = false

abbrev pub is_rejection : Ending → Bool
is_rejection busy = true
is_rejection (counted timeout) = false
is_rejection (counted _) = true
is_rejection _ = false

-- Of the calls that come back or have come back.
abbrev pub ends : (Ending → Bool) → Phase → Bool
ends test (departing e) = test e
ends test (gone e) = test e
ends test _ = false

-- The callback of the call has begun; a call of `Acquire` has none.
abbrev pub has_run : Mode → Phase → Bool
has_run m working = has_callback m
has_run m releasing = has_callback m
has_run m (gone served) = has_callback m
has_run m _ = false

abbrev pub timed_out : Call → Bool
timed_out call = ends is_timeout call.phase

abbrev pub turned_away : Call → Bool
turned_away call = ends is_rejection call.phase

abbrev pub executed : Call → Bool
executed call = has_run call.mode call.phase

-- The endings that a call in a phase before its end can carry: a refund has a counted reason that is
-- no timeout, and a call that departs was not served.
abbrev pub IsFair : Phase → Type 0
IsFair (refunding k e) =
    (is_timeout e ≡ false) × (is_rejection e ≡ true) × ((m : Mode) → has_run m (gone e) ≡ false)
IsFair (departing e) = (m : Mode) → has_run m (gone e) ≡ false
IsFair _ = Unit

-- A counter goes up when a call comes into the counted phases, which it does not leave.
abbrev pub Counts : Bool → Bool → ℕ → ℕ → Type 0
Counts t t' x x' = ((t' ≡ t) × (x' ≡ x)) ⊎ ((t ≡ false) × (t' ≡ true) × (x' ≡ u64 (x + 1)))

abbrev pub Tallies : Mode → Phase → Bulkhead → Bulkhead × Phase → Type 0
Tallies m p b (b', p') =
    Counts (ends is_timeout p) (ends is_timeout p') b.timeouts b'.timeouts
    × Counts (ends is_rejection p) (ends is_rejection p') b.rejected b'.rejected
    × Counts (has_run m p) (has_run m p') b.executed b'.executed

-- Nothing is counted.
abbrev still : {t : Bool} {x : ℕ} → Counts t t x x
still = inl (refl, refl)

-- It comes into the counted phases.
abbrev up : {x : ℕ} → Counts false true x (u64 (x + 1))
up = inr (refl, refl, refl)

pub Turn-Tallies :
    {m : Mode} {b : Bulkhead} {p : Phase} {x : Bulkhead × Phase}
    → Turn m b p x
    → IsFair p
    → Tallies m p b x
Turn-Tallies is_clear f = (still, still, still)
Turn-Tallies is_crowded f = (still, still, still)
Turn-Tallies gives_way f = (still, up, still)
Turn-Tallies (takes r) f = (still, still, still)
Turn-Tallies is_full f = (still, still, still)
Turn-Tallies gives_up f = (still, up, still)
Turn-Tallies is_barging f = (still, still, still)
Turn-Tallies is_first f = (still, still, still)
Turn-Tallies yields f = (still, still, still)
Turn-Tallies yields_all f = (still, up, still)
Turn-Tallies overflows f = (still, up, still)
Turn-Tallies joins f = (still, still, still)
Turn-Tallies sleeps f = (still, still, still)
Turn-Tallies (is_handed r) f = (still, still, still)
Turn-Tallies is_cancelled f = (still, up, still)
Turn-Tallies is_closed f = (still, up, still)
Turn-Tallies times_out f = (up, still, still)
Turn-Tallies (finds_shut k) f = (still, still, still)
Turn-Tallies (finds_open k o) f = (still, still, still)
Turn-Tallies (finds_done k) f = (still, still, still)
Turn-Tallies (finds_alive k) f = (still, still, still)
Turn-Tallies (refunds_queued e) f = (inl (f.0, refl), inr (refl, f.1, refl), still)
Turn-Tallies {m = m} (refunds e) f = (inl (f.0, refl), inr (refl, f.1, refl), inl (f.2 m, refl))
Turn-Tallies is_served f = (still, still, still)
Turn-Tallies goes_on f = (still, still, still)
Turn-Tallies {m = m} (departs e) f = (still, still, inl (f m, refl))
Turn-Tallies (holds n) f = (still, still, inl (n, refl))
Turn-Tallies (starts y) f = (still, still, inr (refl, y, refl))
Turn-Tallies ends_work f = (still, still, still)
Turn-Tallies frees f = (still, still, still)
Turn-Tallies (rests e) f = (still, still, still)

pub Turn-IsFair :
    {m : Mode} {b : Bulkhead} {p : Phase} {x : Bulkhead × Phase}
    → Turn m b p x
    → IsFair p
    → IsFair x.1
Turn-IsFair is_clear f = tt
Turn-IsFair is_crowded f = tt
Turn-IsFair gives_way f = tt
Turn-IsFair (takes r) f = tt
Turn-IsFair is_full f = tt
Turn-IsFair gives_up f = tt
Turn-IsFair is_barging f = tt
Turn-IsFair is_first f = tt
Turn-IsFair yields f = tt
Turn-IsFair yields_all f = tt
Turn-IsFair overflows f = λ m. refl
Turn-IsFair joins f = tt
Turn-IsFair sleeps f = tt
Turn-IsFair (is_handed r) f = tt
Turn-IsFair is_cancelled f = λ m. refl
Turn-IsFair is_closed f = λ m. refl
Turn-IsFair times_out f = λ m. refl
Turn-IsFair (finds_shut k) f = (refl, refl, λ m. refl)
Turn-IsFair (finds_open k o) f = tt
Turn-IsFair (finds_done k) f = (refl, refl, λ m. refl)
Turn-IsFair (finds_alive k) f = tt
Turn-IsFair (refunds_queued e) f = f.2
Turn-IsFair (refunds e) f = tt
Turn-IsFair is_served f = tt
Turn-IsFair goes_on f = tt
Turn-IsFair (departs e) f = tt
Turn-IsFair (holds n) f = tt
Turn-IsFair (starts y) f = tt
Turn-IsFair ends_work f = tt
Turn-IsFair frees f = tt
Turn-IsFair (rests e) f = tt
