-- ===== src/Bulkx/Callers.antt =====
-- bulkx/bulkx.go: many callers of one bulkhead, one atomic operation at a time.
use urx.Base.{ℕ, Bool, true, false, Option, none, some, List, [], ◌∷◌, get_elem?, set}
use urx.Bulkx.Bulkhead.{
  Bulkhead, Mode, Phase, checking, yielding, waiting, committing, confirming, refunding, admitted,
  departing, entering, working, releasing, Wake, arrive, advance, close, reset_stats,
}

pub record Call : Type 0 where
  pub mode : Mode
  pub phase : Phase

pub record Callers : Type 0 where
  pub bulkhead : Bulkhead
  pub calls : List Call

pub data Event : Type 0 where
  -- a call begins, and whether its context is done
  begin : Mode → Bool → Event
  -- the next operation of the call with this index; whether its context is done, and the case of its
  -- `select`
  go : ℕ → Bool → Wake → Event
  shut clear_stats : Event

abbrev pub begun : Mode → Bulkhead × Phase → List Call → Callers
begun m (b, p) calls = record { bulkhead = b; calls = record { mode = m; phase = p } ∷ calls }

abbrev pub gone_on : ℕ → Mode → Bulkhead × Phase → List Call → Callers
gone_on i m (b, p) calls = record {
  bulkhead = b;
  calls = set calls i (record { mode = m; phase = p });
}

unfoldable pub go_at : ℕ → Bool → Wake → Option Call → Callers → Callers
unfolding advance
go_at i done w none c = c
go_at i done w (some call) c =
    gone_on i call.mode (advance call.mode done w call.phase c.bulkhead) c.calls

unfoldable pub step : Event → Callers → Callers
unfolding arrive go_at close reset_stats
step (begin m done) c = begun m (arrive m done c.bulkhead) c.calls
step (go i done w) c = go_at i done w (get_elem? c.calls i) c
step shut c = record c { bulkhead = close c.bulkhead }
step clear_stats c = record c { bulkhead = reset_stats c.bulkhead }

abbrev pub run : List Event → Callers → Callers
run [] c = c
run (e ∷ es) c = run es (step e c)

-- The phases in which a call has a slot, is counted as a waiter, is counted as active.
abbrev pub in_slot : Phase → Bool
in_slot checking = true
in_slot yielding = true
in_slot (committing w) = true
in_slot (confirming w) = true
in_slot (refunding w e) = true
in_slot (admitted w) = true
in_slot entering = true
in_slot working = true
in_slot releasing = true
in_slot _ = false

abbrev pub in_queue : Phase → Bool
in_queue waiting = true
in_queue (committing w) = w
in_queue (confirming w) = w
in_queue (refunding w e) = w
in_queue (admitted w) = w
in_queue (departing e) = true
in_queue _ = false

abbrev pub in_work : Phase → Bool
in_work working = true
in_work _ = false

-- The phases from which a call is still admitted after `Close`: it has looked before.
abbrev pub past_gate : Phase → Bool
past_gate (confirming w) = true
past_gate (admitted w) = true
past_gate entering = true
past_gate working = true
past_gate _ = false

abbrev pub has : (Phase → Bool) → Call → Bool
has test call = test call.phase
