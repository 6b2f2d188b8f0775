-- ===== src/Bulkx/Slots.antt =====
-- bulkx/bulkx.go: what one atomic operation does to the semaphore and the counters.
use urx.Base.{ℕ, ◌+◌, ◌≤◌, ◌≡◌, refl, Bool, arith, if◌then◌else◌}
use urx.Bulkx.Bulkhead.{Bulkhead, Mode, Phase}
use urx.Bulkx.Callers.{in_slot, in_queue, in_work}
use urx.Bulkx.Turns.{
  Turn, is_clear, is_crowded, gives_way, takes, is_full, gives_up, is_barging, is_first, yields,
  yields_all, overflows, joins, sleeps, is_handed, is_cancelled, is_closed, times_out, finds_shut,
  finds_open, finds_done, finds_alive, refunds_queued, refunds, is_served, goes_on, departs, holds,
  starts, ends_work, frees, rests,
}

abbrev pub one_if : Bool → ℕ
one_if b = if b then 1 else 0

-- A call that goes from the phase `p` to the next one and the bulkhead from `b` to the next: the
-- counters move with the call.
abbrev pub Keeps : Phase → Bulkhead → Bulkhead × Phase → Type 0
Keeps p b (b', p') =
    (b'.sem + one_if (in_slot p) ≡ b.sem + one_if (in_slot p'))
    × (b'.waiters + one_if (in_queue p) ≡ b.waiters + one_if (in_queue p'))
    × (b'.active + one_if (in_work p) ≡ b.active + one_if (in_work p'))
    × (b'.sem ≤ b'.cfg.max_concurrent)
    × (b'.cfg ≡ b.cfg)

pub Turn-Keeps :
    {m : Mode} {b : Bulkhead} {p : Phase} {x : Bulkhead × Phase}
    → Turn m b p x
    → one_if (in_slot p) ≤ b.sem
    → one_if (in_queue p) ≤ b.waiters
    → one_if (in_work p) ≤ b.active
    → b.sem ≤ b.cfg.max_concurrent
    → Keeps p b x
Turn-Keeps is_clear s q k h = (refl, refl, refl, h, refl)
Turn-Keeps is_crowded s q k h = (refl, refl, refl, h, refl)
Turn-Keeps gives_way s q k h = (refl, refl, refl, h, refl)
Turn-Keeps (takes r) s q k h = (omega arith, refl, refl, omega (arith, r), refl)
Turn-Keeps is_full s q k h = (refl, refl, refl, h, refl)
Turn-Keeps gives_up s q k h = (refl, refl, refl, h, refl)
Turn-Keeps is_barging s q k h = (refl, refl, refl, h, refl)
Turn-Keeps is_first s q k h = (refl, refl, refl, h, refl)
Turn-Keeps yields s q k h = (omega (arith, s), refl, refl, omega (arith, h), refl)
Turn-Keeps yields_all s q k h = (omega (arith, s), refl, refl, omega (arith, h), refl)
Turn-Keeps overflows s q k h = (refl, omega arith, refl, h, refl)
Turn-Keeps joins s q k h = (refl, omega arith, refl, h, refl)
Turn-Keeps sleeps s q k h = (refl, refl, refl, h, refl)
Turn-Keeps (is_handed r) s q k h = (omega arith, refl, refl, omega (arith, r), refl)
Turn-Keeps is_cancelled s q k h = (refl, refl, refl, h, refl)
Turn-Keeps is_closed s q k h = (refl, refl, refl, h, refl)
Turn-Keeps times_out s q k h = (refl, refl, refl, h, refl)
Turn-Keeps (finds_shut w) s q k h = (refl, refl, refl, h, refl)
Turn-Keeps (finds_open w _) s q k h = (refl, refl, refl, h, refl)
Turn-Keeps (finds_done w) s q k h = (refl, refl, refl, h, refl)
Turn-Keeps (finds_alive w) s q k h = (refl, refl, refl, h, refl)
Turn-Keeps (refunds_queued e) s q k h = (omega (arith, s), refl, refl, omega (arith, h), refl)
Turn-Keeps (refunds e) s q k h = (omega (arith, s), refl, refl, omega (arith, h), refl)
Turn-Keeps is_served s q k h = (refl, omega (arith, q), refl, h, refl)
Turn-Keeps goes_on s q k h = (refl, refl, refl, h, refl)
Turn-Keeps (departs e) s q k h = (refl, omega (arith, q), refl, h, refl)
Turn-Keeps (holds _) s q k h = (refl, refl, omega arith, h, refl)
Turn-Keeps (starts _) s q k h = (refl, refl, omega arith, h, refl)
Turn-Keeps ends_work s q k h = (refl, refl, omega (arith, k), h, refl)
Turn-Keeps frees s q k h = (omega (arith, s), refl, refl, omega (arith, h), refl)
Turn-Keeps (rests e) s q k h = (refl, refl, refl, h, refl)
