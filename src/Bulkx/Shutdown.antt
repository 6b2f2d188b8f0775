-- ===== src/Bulkx/Shutdown.antt =====
-- bulkx/bulkx.go: after `Close`.
use urx.Base.{
  ℕ, ◌≤◌, ◌≡◌, refl, Bool, true, Option, none, some, List, [], ◌∷◌, arith, get_elem?, count_if,
  count_if-write,
}
use urx.Bulkx.Bulkhead.{Bulkhead, Mode, Phase, Wake, advance, close, reset_stats}
use urx.Bulkx.Turns.{
  Turn, is_clear, is_crowded, gives_way, takes, is_full, gives_up, is_barging, is_first, yields,
  yields_all, overflows, joins, sleeps, is_handed, is_cancelled, is_closed, times_out, finds_shut,
  finds_open, finds_done, finds_alive, refunds_queued, refunds, is_served, goes_on, departs, holds,
  starts, ends_work, frees, rests, advance-Turn, arrive-intro,
}
use urx.Bulkx.Callers.{
  Call, Callers, Event, begin, go, shut, clear_stats, begun, gone_on, go_at, step, run, past_gate,
  has,
}
use urx.Bulkx.Slots.{one_if}

-- A call of a closed bulkhead does not pass the gate: if it is past it, it was so before.
abbrev StaysOut : Phase → Bulkhead × Phase → Type 0
StaysOut p (b, p') = (one_if (past_gate p') ≤ one_if (past_gate p)) × (b.is_shut ≡ true)

Turn-StaysOut :
    {m : Mode} {b : Bulkhead} {p : Phase} {x : Bulkhead × Phase}
    → Turn m b p x
    → b.is_shut ≡ true
    → StaysOut p x
Turn-StaysOut is_clear s = (omega arith, s)
Turn-StaysOut is_crowded s = (omega arith, s)
Turn-StaysOut gives_way s = (omega arith, s)
Turn-StaysOut (takes r) s = (omega arith, s)
Turn-StaysOut is_full s = (omega arith, s)
Turn-StaysOut gives_up s = (omega arith, s)
Turn-StaysOut is_barging s = (omega arith, s)
Turn-StaysOut is_first s = (omega arith, s)
Turn-StaysOut yields s = (omega arith, s)
Turn-StaysOut yields_all s = (omega arith, s)
Turn-StaysOut overflows s = (omega arith, s)
Turn-StaysOut joins s = (omega arith, s)
Turn-StaysOut sleeps s = (omega arith, s)
Turn-StaysOut (is_handed r) s = (omega arith, s)
Turn-StaysOut is_cancelled s = (omega arith, s)
Turn-StaysOut is_closed s = (omega arith, s)
Turn-StaysOut times_out s = (omega arith, s)
Turn-StaysOut (finds_shut k) s = (omega arith, s)
Turn-StaysOut (finds_open k o) s = absurd cc
Turn-StaysOut (finds_done k) s = (omega arith, s)
Turn-StaysOut (finds_alive k) s = (omega arith, s)
Turn-StaysOut (refunds_queued e) s = (omega arith, s)
Turn-StaysOut (refunds e) s = (omega arith, s)
Turn-StaysOut is_served s = (omega arith, s)
Turn-StaysOut goes_on s = (omega arith, s)
Turn-StaysOut (departs e) s = (omega arith, s)
Turn-StaysOut (holds _) s = (omega arith, s)
Turn-StaysOut (starts _) s = (omega arith, s)
Turn-StaysOut ends_work s = (omega arith, s)
Turn-StaysOut frees s = (omega arith, s)
Turn-StaysOut (rests e) s = (omega arith, s)

-- The calls past the gate, and a closed bulkhead.
abbrev Shrinks : Callers → Callers → Type 0
Shrinks c c' =
    (count_if (has past_gate) c'.calls ≤ count_if (has past_gate) c.calls)
    × (c'.bulkhead.is_shut ≡ true)

moved-Shrinks :
    (i : ℕ) (call : Call) (x : Bulkhead × Phase) (c : Callers)
    → get_elem? c.calls i ≡ some call
    → StaysOut call.phase x
    → Shrinks c (gone_on i call.mode x c.calls)
moved-Shrinks i call (b, p) c f (o, s) =
    let next : Call = record { mode = call.mode; phase = p } in
    let written = count_if-write (has past_gate) c.calls i call next f in
    (omega (arith, written, o), s)

go_at-Shrinks :
    (i : ℕ) (done : Bool) (w : Wake) (o : Option Call) (c : Callers)
    → get_elem? c.calls i ≡ o
    → c.bulkhead.is_shut ≡ true
    → Shrinks c (go_at i done w o c)
unfolding go_at
go_at-Shrinks i done w none c f s = (omega arith, s)
go_at-Shrinks i done w (some call) c f s =
    moved-Shrinks i call (advance call.mode done w call.phase c.bulkhead) c f
      (Turn-StaysOut (advance-Turn call.mode done w call.phase c.bulkhead) s)

step-Shrinks : (e : Event) (c : Callers) → c.bulkhead.is_shut ≡ true → Shrinks c (step e c)
unfolding step close reset_stats
step-Shrinks (begin m done) c s =
    arrive-intro (λ x. Shrinks c (begun m x c.calls)) m done c.bulkhead (omega arith, s)
      (omega arith, s) (omega arith, s) (omega arith, s)
step-Shrinks (go i done w) c s = go_at-Shrinks i done w (get_elem? c.calls i) c refl s
step-Shrinks shut c s = (omega arith, refl)
step-Shrinks clear_stats c s = (omega arith, s)

-- Once the bulkhead is closed it stays closed, and no call gets past the look at the closed state
-- any more: over any further operations, the calls that are admitted or run are never more than were
-- past that look when it was closed.
pub run-closed :
    (es : List Event) (c : Callers)
    → c.bulkhead.is_shut ≡ true
    → let c' = run es c in
      (count_if (has past_gate) c'.calls ≤ count_if (has past_gate) c.calls)
      × (c'.bulkhead.is_shut ≡ true)
run-closed [] c s = (omega arith, s)
run-closed (e ∷ es) c s =
    let (fewer, closed) = step-Shrinks e c s in
    let (rest, k) = run-closed es (step e c) closed in (omega (arith, fewer, rest), k)
