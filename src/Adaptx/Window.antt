-- ===== src/Adaptx/Window.antt =====
-- adaptx/adaptx.go: the sample window, the estimators and the ring of samples.
use urx.Base.{
  ℕ, ◌+◌, ◌*◌, ◌%◌, Bool, true, false, ◌&&◌, ◌||◌, not, Option, none, some, if◌then◌else◌, ltb, leb,
  ◌==◌, set, u64,
}
use urx.Base.Fractions.{Fraction, whole, plus, minus, times}
use urx.Adaptx.Types.{Sample, Ring, Window, WindowSnap, Limiter, Counters, Draw, LimitChange}
use urx.Adaptx.Control.{adjust}

abbrev pub fresh_window : ℕ → Window
fresh_window now = record {
  rtt_sum = 0;
  min_rtt = none;
  start = now;
  n = 0;
  fails = 0;
  max_in_flight = 0;
}

unfoldable pub reset_window : ℕ → Limiter → Limiter
reset_window now l = record l { window = fresh_window now }

-- A sample takes the place at the head, and the head moves on around the ring.
unfoldable pub push_sample : Sample → Ring → Ring
push_sample s r = record r {
  samples = set r.samples r.head s;
  head = (r.head + 1) % r.ring_cap;
  count = if ltb r.count r.ring_cap then r.count + 1 else r.count;
}

abbrev pub lower_min : ℕ → Option ℕ → Option ℕ
lower_min ns none = some ns
lower_min ns (some m) = if ltb ns m then some ns else some m

abbrev pub lower_min_lat : ℕ → Option Fraction → Option Fraction
lower_min_lat ns none = some (whole ns)
lower_min_lat ns (some m) = if ltb (ns * m.den) m.num then some (whole ns) else some m

-- The part of `recordLocked` under `latency > 0`.
unfoldable pub add_sample : ℕ → ℕ → Bool → Limiter → Limiter
unfolding push_sample
add_sample now latency success l = record l {
  ring = push_sample (record { latency = latency; ts = now; success = success }) l.ring;
  seen = l.seen + 1;
  window = record l.window {
    n = l.window.n + 1;
    fails = if success then l.window.fails else l.window.fails + 1;
    rtt_sum = l.window.rtt_sum + latency;
    min_rtt = lower_min latency l.window.min_rtt;
  };
  min_lat = lower_min_lat latency l.min_lat;
}

unfoldable pub window_snapshot : Limiter → WindowSnap
window_snapshot l = record {
  n = l.window.n;
  fails = l.window.fails;
  max_in_flight = l.window.max_in_flight;
  mean_rtt =
      if ltb 0 l.window.n then record { num = l.window.rtt_sum; den = l.window.n } else whole 0;
  min_rtt = l.window.min_rtt;
}

-- `smoothing*mean + (1-smoothing)*avg`
abbrev pub blend : Fraction → Fraction → Fraction → Fraction
blend smoothing mean avg = plus (times smoothing mean) (times (minus (whole 1) smoothing) avg)

-- `min + decay * (avg - min)`
abbrev pub decayed : Fraction → Fraction → Option Fraction → Option Fraction
decayed decay avg none = none
decayed decay avg (some m) =
    if ltb 0 decay.num
    then some (plus (times (minus (whole 1) decay) m) (times decay avg))
    else some m

unfoldable pub update_estimators : WindowSnap → Limiter → Limiter
update_estimators snap l =
    let avg =
      if leb l.avg_lat.num 0
      then snap.mean_rtt
      else blend l.cfg.smoothing snap.mean_rtt l.avg_lat in
    if leb snap.mean_rtt.num 0
    then l
    else record l { avg_lat = avg; min_lat = decayed l.cfg.min_lat_decay avg l.min_lat }

abbrev pub note_peak : Limiter → Limiter
note_peak l =
    if ltb l.window.max_in_flight l.in_flight
    then record l { window = record l.window { max_in_flight = l.in_flight } }
    else l

-- The control law at the end of a window; a hook is called where it changed the limit.
unfoldable pub close_window : ℕ → Draw → Limiter → Limiter × Option LimitChange
unfolding window_snapshot adjust update_estimators reset_window
close_window now draw l =
    let snap = window_snapshot l in
    let adjusted = adjust draw snap l in
    let fire = not (adjusted.limit == l.limit) && l.cfg.on_limit_change in
    if ltb 0 l.window.n
    then (
      reset_window now (update_estimators snap adjusted),
      if fire then some (record { old_limit = l.limit; new_limit = adjusted.limit }) else none,
    )
    else (reset_window now l, none)

unfoldable pub record_locked : ℕ → Draw → Bool → ℕ → Limiter → Limiter × Option LimitChange
unfolding add_sample close_window
record_locked now draw success latency l =
    let peak = note_peak l in
    let l' = if ltb 0 latency then add_sample now latency success peak else peak in
    if ltb now (l'.window.start + l'.cfg.sample_window) || ltb l'.seen l'.cfg.warmup_samples
    then (l', none)
    else close_window now draw l'

abbrev pub count_outcome : Bool → Counters → Counters
count_outcome true c = record c { success = u64 (c.success + 1) }
count_outcome false c = record c { fail = u64 (c.fail + 1) }

-- `record`, with the hook's call; a latency of 0 is a skipped sample.
unfoldable pub record_outcome : ℕ → Draw → Bool → ℕ → Limiter → Limiter × Option LimitChange
unfolding record_locked
record_outcome now draw success latency l =
    let counted = record l { counters = count_outcome success l.counters } in
    if leb latency 0 then (counted, none) else record_locked now draw success latency counted
