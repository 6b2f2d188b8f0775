-- ===== src/Bulkx/Turns.antt =====
-- bulkx/bulkx.go: the atomic operations of a call as a step relation, one constructor for each way
-- that an operation can go.
use urx.Base.{
  ◌+◌, ◌-◌, ◌<◌, ◌≡◌, refl, Bool, true, false, ◌&&◌, if-intro, if-cases, ltb, ltb→lt, ◌==◌, u64,
}
use urx.Base.Errors.{closed, cancelled, timeout, waiters_exceeded}
use urx.Bulkx.Bulkhead.{
  Bulkhead, Mode, acquiring, executing, trying, Ending, served, busy, counted, uncounted, Phase,
  looking, attempting, checking, yielding, queueing, waiting, committing, confirming, refunding,
  admitted, departing, entering, working, releasing, gone, Wake, by_slot, by_ctx, by_timer,
  by_close, reject, free_slot, no_slot, wake_up, advance, arrive,
}

abbrev pub has_callback : Mode → Bool
has_callback acquiring = false
has_callback _ = true

-- From a phase to the next bulkhead and phase.
pub data Turn (m : Mode) (b : Bulkhead) : Phase → Bulkhead × Phase → Type 0 where
  is_clear : Turn m b looking (b, attempting)
  is_crowded : Turn m b looking (b, queueing)
  gives_way : Turn m b looking (reject b, gone busy)
  takes :
      b.sem < b.cfg.max_concurrent → Turn m b attempting (record b { sem = b.sem + 1 }, checking)
  is_full : Turn m b attempting (b, queueing)
  gives_up : Turn m b attempting (reject b, gone busy)
  is_barging : Turn m b checking (b, yielding)
  is_first : Turn m b checking (b, committing false)
  yields : Turn m b yielding (free_slot b, queueing)
  yields_all : Turn m b yielding (reject (free_slot b), gone busy)
  overflows :
      Turn m b queueing
        (reject (record b { waiters = b.waiters + 1 }), departing (counted waiters_exceeded))
  joins : Turn m b queueing (record b { waiters = b.waiters + 1 }, waiting)
  sleeps : Turn m b waiting (b, waiting)
  is_handed :
      b.sem < b.cfg.max_concurrent
      → Turn m b waiting (record b { sem = b.sem + 1 }, committing true)
  is_cancelled : Turn m b waiting (reject b, departing (counted cancelled))
  is_closed : Turn m b waiting (reject b, departing (counted closed))
  times_out :
      Turn m b waiting (record b { timeouts = u64 (b.timeouts + 1) }, departing (counted timeout))
  finds_shut : (k : Bool) → Turn m b (committing k) (b, refunding k (counted closed))
  finds_open : (k : Bool) → b.is_shut ≡ false → Turn m b (committing k) (b, confirming k)
  finds_done : (k : Bool) → Turn m b (confirming k) (b, refunding k (counted cancelled))
  finds_alive : (k : Bool) → Turn m b (confirming k) (b, admitted k)
  refunds_queued : (e : Ending) → Turn m b (refunding true e) (reject (free_slot b), departing e)
  refunds : (e : Ending) → Turn m b (refunding false e) (reject (free_slot b), gone e)
  is_served : Turn m b (admitted true) (record b { waiters = b.waiters - 1 }, entering)
  goes_on : Turn m b (admitted false) (b, entering)
  departs : (e : Ending) → Turn m b (departing e) (record b { waiters = b.waiters - 1 }, gone e)
  holds : has_callback m ≡ false → Turn m b entering (record b { active = b.active + 1 }, working)
  starts :
      has_callback m ≡ true
      → Turn m b entering
          (record b { active = b.active + 1; executed = u64 (b.executed + 1) }, working)
  ends_work : Turn m b working (record b { active = b.active - 1 }, releasing)
  frees : Turn m b releasing (free_slot b, gone served)
  rests : (e : Ending) → Turn m b (gone e) (b, gone e)

-- Where there is no slot, by the mode.
no_slot-intro {ℓ} :
    (P : Bulkhead × Phase → Type ℓ) (m : Mode) (b : Bulkhead)
    → P (b, queueing)
    → P (reject b, gone busy)
    → P (no_slot m b)
no_slot-intro P acquiring b q g = q
no_slot-intro P executing b q g = q
no_slot-intro P trying b q g = g

wake_up-Turn :
    (m : Mode) (done : Bool) (w : Wake) (b : Bulkhead) → Turn m b waiting (wake_up done w b)
wake_up-Turn m done by_slot b =
    if-cases (Turn m b waiting) (ltb b.sem b.cfg.max_concurrent)
      (record b { sem = b.sem + 1 }, committing true) (b, waiting)
      (λ e. is_handed (ltb→lt b.sem b.cfg.max_concurrent e)) (λ e. sleeps)
wake_up-Turn m true by_ctx b = is_cancelled
wake_up-Turn m false by_ctx b = sleeps
wake_up-Turn m true by_timer b = is_cancelled
wake_up-Turn m false by_timer b = times_out
wake_up-Turn m done by_close b =
    if-intro (Turn m b waiting) b.is_shut (reject b, departing (counted closed)) (b, waiting)
      is_closed sleeps

-- An operation is one of these turns.
pub advance-Turn :
    (m : Mode) (done : Bool) (w : Wake) (p : Phase) (b : Bulkhead)
    → Turn m b p (advance m done w p b)
unfolding advance
advance-Turn m done w looking b =
    if-intro (Turn m b looking) (b.waiters == 0) (b, attempting) (no_slot m b) is_clear
      (no_slot-intro (Turn m b looking) m b is_crowded gives_way)
advance-Turn m done w attempting b =
    if-cases (Turn m b attempting) (ltb b.sem b.cfg.max_concurrent)
      (record b { sem = b.sem + 1 }, checking) (no_slot m b)
      (λ e. takes (ltb→lt b.sem b.cfg.max_concurrent e))
      (λ e. no_slot-intro (Turn m b attempting) m b is_full gives_up)
advance-Turn m done w checking b =
    if-intro (Turn m b checking) (ltb 0 b.waiters) (b, yielding) (b, committing false) is_barging
      is_first
advance-Turn m done w yielding b =
    no_slot-intro (Turn m b yielding) m (free_slot b) yields yields_all
advance-Turn m done w queueing b =
    let b' = record b { waiters = b.waiters + 1 } in
    if-intro (Turn m b queueing) (ltb 0 b.cfg.max_waiters && ltb b.cfg.max_waiters (b.waiters + 1))
      (reject b', departing (counted waiters_exceeded)) (b', waiting) overflows joins
advance-Turn m done w waiting b = wake_up-Turn m done w b
advance-Turn m done w (committing k) b =
    if-cases (Turn m b (committing k)) b.is_shut (b, refunding k (counted closed)) (b, confirming k)
      (λ e. finds_shut k) (λ e. finds_open k e)
advance-Turn m true w (confirming k) b = finds_done k
advance-Turn m false w (confirming k) b = finds_alive k
advance-Turn m done w (refunding true e) b = refunds_queued e
advance-Turn m done w (refunding false e) b = refunds e
advance-Turn m done w (admitted true) b = is_served
advance-Turn m done w (admitted false) b = goes_on
advance-Turn m done w (departing e) b = departs e
advance-Turn acquiring done w entering b = holds refl
advance-Turn executing done w entering b = starts refl
advance-Turn trying done w entering b = starts refl
advance-Turn m done w working b = ends_work
advance-Turn m done w releasing b = frees
advance-Turn m done w (gone e) b = rests e

-- A property of every way that a call can begin.
pub arrive-intro {ℓ} :
    (P : Bulkhead × Phase → Type ℓ) (m : Mode) (done : Bool) (b : Bulkhead)
    → P (b, gone (uncounted closed))
    → P (reject b, gone (counted cancelled))
    → P (b, gone (uncounted cancelled))
    → P (b, looking)
    → P (arrive m done b)
unfolding arrive
arrive-intro P acquiring done b s c t l =
    if-intro P b.is_shut (b, gone (uncounted closed)) _ s (if-intro P done _ (b, looking) c l)
arrive-intro P executing done b s c t l =
    if-intro P b.is_shut (b, gone (uncounted closed)) _ s (if-intro P done _ (b, looking) c l)
arrive-intro P trying done b s c t l =
    if-intro P b.is_shut (b, gone (uncounted closed)) _ s (if-intro P done _ (b, looking) t l)
