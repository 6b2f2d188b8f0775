-- ===== src/Bulkx/Counts.antt =====
-- bulkx/bulkx.go: the slots, the waiters and the active calls under any interleaving.
use urx.Base.{
  ℕ, ◌≤◌, ◌≡◌, refl, Bool, Option, none, some, List, [], ◌∷◌, arith, get_elem?, count_if,
  count_if-write, count_if-erase_idx,
}
use urx.Bulkx.Config.{BulkOption}
use urx.Bulkx.Bulkhead.{
  Bulkhead, Phase, looking, attempting, checking, yielding, queueing, waiting, committing,
  confirming, refunding, admitted, departing, entering, working, releasing, gone, Wake, advance,
  new, close, reset_stats,
}
use urx.Bulkx.Callers.{
  Call, Callers, Event, begin, go, shut, clear_stats, begun, gone_on, go_at, step, run, in_slot,
  in_queue, in_work, has,
}
use urx.Bulkx.Turns.{advance-Turn, arrive-intro}
use urx.Bulkx.Slots.{one_if, Keeps, Turn-Keeps}

-- The semaphore and the counters are the numbers of calls in the phases they stand for.
abbrev pub Inv : Callers → Type 0
Inv c =
    (c.bulkhead.sem ≡ count_if (has in_slot) c.calls)
    × (c.bulkhead.waiters ≡ count_if (has in_queue) c.calls)
    × (c.bulkhead.active ≡ count_if (has in_work) c.calls)
    × (c.bulkhead.sem ≤ c.bulkhead.cfg.max_concurrent)

work_slot : (p : Phase) → one_if (in_work p) ≤ one_if (in_slot p)
work_slot looking = omega arith
work_slot attempting = omega arith
work_slot checking = omega arith
work_slot yielding = omega arith
work_slot queueing = omega arith
work_slot waiting = omega arith
work_slot (committing w) = omega arith
work_slot (confirming w) = omega arith
work_slot (refunding w e) = omega arith
work_slot (admitted w) = omega arith
work_slot (departing e) = omega arith
work_slot entering = omega arith
work_slot working = omega arith
work_slot releasing = omega arith
work_slot (gone e) = omega arith

work_slots : (calls : List Call) → count_if (has in_work) calls ≤ count_if (has in_slot) calls
work_slots [] = omega arith
work_slots (call ∷ calls) =
    let rest = work_slots calls in let here = work_slot call.phase in ground (arith, rest, here)

moved-Inv :
    (i : ℕ) (call : Call) (x : Bulkhead × Phase) (c : Callers)
    → get_elem? c.calls i ≡ some call
    → Keeps call.phase c.bulkhead x
    → Inv c
    → Inv (gone_on i call.mode x c.calls)
moved-Inv i call (b, p) c f (s, q, k, r, e) v =
    let next : Call = record { mode = call.mode; phase = p } in
    let written = λ (test : Phase → Bool). count_if-write (has test) c.calls i call next f in
    let slots = written in_slot in
    let queue = written in_queue in
    let work = written in_work in
    (omega (arith, slots, s, v.0), omega (arith, queue, q, v.1), omega (arith, work, k, v.2), r)

go_at-Inv :
    (i : ℕ) (done : Bool) (w : Wake) (o : Option Call) (c : Callers)
    → get_elem? c.calls i ≡ o
    → Inv c
    → Inv (go_at i done w o c)
unfolding go_at
go_at-Inv i done w none c f v = v
go_at-Inv i done w (some call) c f v =
    let counted = λ (test : Phase → Bool). count_if-erase_idx (has test) c.calls i call f in
    let slots = counted in_slot in
    let queue = counted in_queue in
    let work = counted in_work in
    moved-Inv i call (advance call.mode done w call.phase c.bulkhead) c f
      (Turn-Keeps (advance-Turn call.mode done w call.phase c.bulkhead) (omega (arith, slots, v.0))
        (omega (arith, queue, v.1)) (omega (arith, work, v.2)) v.3)
      v

step-Inv : (e : Event) (c : Callers) → Inv c → Inv (step e c)
unfolding step close reset_stats
-- A call that begins is in none of the counted phases.
step-Inv (begin m done) c v = arrive-intro (λ x. Inv (begun m x c.calls)) m done c.bulkhead v v v v
step-Inv (go i done w) c v = go_at-Inv i done w (get_elem? c.calls i) c refl v
step-Inv shut c v = v
step-Inv clear_stats c v = v

pub run-Inv : (es : List Event) (c : Callers) → Inv c → Inv (run es c)
run-Inv [] c v = v
run-Inv (e ∷ es) c v = run-Inv es (step e c) (step-Inv e c v)

abbrev pub starts : List (Option BulkOption) → Callers
starts opts = record { bulkhead = new opts; calls = [] }

pub starts-Inv : (opts : List (Option BulkOption)) → Inv (starts opts)
unfolding new
starts-Inv opts = (refl, refl, refl, omega arith)

-- For every interleaving of the calls' atomic operations from a new bulkhead, whatever options it
-- got: the slots in use are those that calls have, the count of waiters and the count of active
-- calls are exact, and at every moment no more calls are active than have a slot, and no more have
-- one than max_concurrent.
pub run-slots :
    (es : List Event) (opts : List (Option BulkOption))
    → let c = run es (starts opts) in
      let b = c.bulkhead in
      (b.sem ≡ count_if (has in_slot) c.calls)
      × (b.waiters ≡ count_if (has in_queue) c.calls)
      × (b.active ≡ count_if (has in_work) c.calls)
      × (b.active ≤ b.sem)
      × (b.sem ≤ b.cfg.max_concurrent)
run-slots es opts =
    let c = run es (starts opts) in
    let v : Inv c = run-Inv es (starts opts) (starts-Inv opts) in
    let fewer = work_slots c.calls in (v.0, v.1, v.2, omega (arith, v.0, v.2, fewer), v.3)
