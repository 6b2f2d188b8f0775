-- ===== src/Bulkx/Bulkhead.antt =====
-- bulkx/bulkx.go: the bulkhead, and a call as the sequence of its atomic operations, between any two
-- of which other goroutines may run. `sem` is the number of values in the semaphore's channel, that
-- is of slots in use; the channel has `max_concurrent` places.
use urx.Base.{ℕ, ◌+◌, ◌-◌, Bool, true, false, ◌&&◌, Option, List, if◌then◌else◌, ltb, ◌==◌, u64}
use urx.Base.Errors.{Reason, closed, cancelled, timeout, waiters_exceeded}
use urx.Bulkx.Config.{Config, BulkOption, new_config}

pub record Bulkhead : Type 0 where
  pub cfg : Config
  pub sem : ℕ
  pub active : ℕ
  pub waiters : ℕ
  pub executed : ℕ  -- uint64
  pub rejected : ℕ  -- uint64
  pub timeouts : ℕ  -- uint64
  pub is_shut : Bool

unfoldable pub new : List (Option BulkOption) → Bulkhead
unfolding new_config
new opts = record {
  cfg = new_config opts;
  sem = 0;
  active = 0;
  waiters = 0;
  executed = 0;
  rejected = 0;
  timeouts = 0;
  is_shut = false;
}

unfoldable pub allow : Bulkhead → Bool
allow b = if b.is_shut then false else ltb b.active b.cfg.max_concurrent

-- `Acquire`, `Execute` and `TryExecute`.
pub data Mode : Type 0 where
  acquiring executing trying : Mode

-- How a call ends: its work is done, `TryExecute` found no slot (and returns no error), or it returns
-- an error, which a counter counts or none.
pub data Ending : Type 0 where
  served busy : Ending
  counted uncounted : Reason → Ending

-- What a call does next: look for waiters, try to send to the semaphore, look for waiters again with
-- the slot, take the slot back for them, become a waiter, wait, look whether the bulkhead is closed,
-- whether the context is done, refund the slot, stop being a waiter without a slot and with one,
-- count itself as active, end its work and count itself down, free the slot. The flag says whether
-- the call has waited.
pub data Phase : Type 0 where
  looking attempting checking yielding queueing waiting : Phase
  committing confirming admitted : Bool → Phase
  refunding : Bool → Ending → Phase
  departing gone : Ending → Phase
  entering working releasing : Phase

-- Which case of the `select` in `reserveSlow` goes ahead.
pub data Wake : Type 0 where
  by_slot by_ctx by_timer by_close : Wake

abbrev pub reject : Bulkhead → Bulkhead
reject b = record b { rejected = u64 (b.rejected + 1) }

-- No slot: `reserve` goes on to `reserveSlow`, and `TryExecute` gives up.
abbrev pub no_slot : Mode → Bulkhead → Bulkhead × Phase
no_slot acquiring b = (b, queueing)
no_slot executing b = (b, queueing)
no_slot trying b = (reject b, gone busy)

-- A send to the semaphore where it has a place.
abbrev pub send_slot : Phase → Bulkhead × Phase → Bulkhead → Bulkhead × Phase
send_slot next other b =
    if ltb b.sem b.cfg.max_concurrent then (record b { sem = b.sem + 1 }, next) else other

abbrev pub free_slot : Bulkhead → Bulkhead
free_slot b = record b { sem = b.sem - 1 }

abbrev pub queue_up : Bulkhead → Bulkhead × Phase
queue_up b =
    let b' = record b { waiters = b.waiters + 1 } in
    if ltb 0 b.cfg.max_waiters && ltb b.cfg.max_waiters (b.waiters + 1)
    then (reject b', departing (counted waiters_exceeded))
    else (b', waiting)

-- `done` says whether the context is done.
abbrev pub wake_up : Bool → Wake → Bulkhead → Bulkhead × Phase
wake_up done by_slot b = send_slot (committing true) (b, waiting) b
wake_up done by_ctx b = if done then (reject b, departing (counted cancelled)) else (b, waiting)
wake_up done by_timer b =
    if done
    then (reject b, departing (counted cancelled))
    else (record b { timeouts = u64 (b.timeouts + 1) }, departing (counted timeout))
wake_up done by_close b = if b.is_shut then (reject b, departing (counted closed)) else (b, waiting)

abbrev pub count_active : Mode → Bulkhead → Bulkhead
count_active acquiring b = record b { active = b.active + 1 }
count_active executing b = record b { active = b.active + 1; executed = u64 (b.executed + 1) }
count_active trying b = record b { active = b.active + 1; executed = u64 (b.executed + 1) }

-- One atomic operation of a call.
unfoldable pub advance : Mode → Bool → Wake → Phase → Bulkhead → Bulkhead × Phase
advance m done w looking b = if b.waiters == 0 then (b, attempting) else no_slot m b
advance m done w attempting b = send_slot checking (no_slot m b) b
advance m done w checking b = if ltb 0 b.waiters then (b, yielding) else (b, committing false)
advance m done w yielding b = no_slot m (free_slot b)
advance m done w queueing b = queue_up b
advance m done w waiting b = wake_up done w b
advance m done w (committing waited) b =
    if b.is_shut then (b, refunding waited (counted closed)) else (b, confirming waited)
advance m done w (confirming waited) b =
    if done then (b, refunding waited (counted cancelled)) else (b, admitted waited)
advance m done w (refunding waited e) b =
    (reject (free_slot b), if waited then departing e else gone e)
advance m done w (admitted waited) b =
    (if waited then record b { waiters = b.waiters - 1 } else b, entering)
advance m done w (departing e) b = (record b { waiters = b.waiters - 1 }, gone e)
advance m done w entering b = (count_active m b, working)
advance m done w working b = (record b { active = b.active - 1 }, releasing)
advance m done w releasing b = (free_slot b, gone served)
advance m done w (gone e) b = (b, gone e)

-- The guards at the beginning of a call. `Execute` and `TryExecute` have looked at their function
-- before; `TryExecute` does not count a context that is done.
unfoldable pub arrive : Mode → Bool → Bulkhead → Bulkhead × Phase
arrive trying done b =
    if b.is_shut
    then (b, gone (uncounted closed))
    else (if done then (b, gone (uncounted cancelled)) else (b, looking))
arrive m done b =
    if b.is_shut
    then (b, gone (uncounted closed))
    else (if done then (reject b, gone (counted cancelled)) else (b, looking))

unfoldable pub close : Bulkhead → Bulkhead
close b = record b { is_shut = true }

unfoldable pub reset_stats : Bulkhead → Bulkhead
reset_stats b = record b { executed = 0; rejected = 0; timeouts = 0 }

pub record Stats : Type 0 where
  pub max_concurrent : ℕ
  pub active : ℕ
  pub waiters : ℕ
  pub executed : ℕ
  pub rejected : ℕ
  pub timeouts : ℕ

unfoldable pub stats : Bulkhead → Stats
stats b = record {
  max_concurrent = b.cfg.max_concurrent;
  active = b.active;
  waiters = b.waiters;
  executed = b.executed;
  rejected = b.rejected;
  timeouts = b.timeouts;
}
