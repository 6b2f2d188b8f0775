-- ===== src/Adaptx/Records.antt =====
-- adaptx/adaptx.go: what recording an outcome does to the limit, the debt and the permits.
use urx.Base.{ℕ, ◌+◌, ap, Bool, Option, arith, if◌then◌else◌, if-intro, ltb, leb}
use urx.Base.Floats.{round_float}
use urx.Base.Fractions.{whole, times, ceil}
use urx.Adaptx.Config.{Algorithm, by_aimd, by_vegas, by_gradient, unknown}
use urx.Adaptx.Types.{Limiter, WindowSnap, Draw, LimitChange}
use urx.Adaptx.Control.{aimd, grow, cut, proposed, jitter, conclude, adjust}
use urx.Adaptx.Window.{
  blend, decayed, reset_window, add_sample, window_snapshot, update_estimators, note_peak,
  close_window, record_locked, record_outcome, count_outcome,
}
use urx.Adaptx.Moves.{
  SamePermits, IsBalanced, Moves, same_permits, clamp_lem, Moves-refl, Moves-trans, set_limit-Moves,
}

aimd-SamePermits : (snap : WindowSnap) (l : Limiter) → SamePermits l (aimd snap l).0
unfolding aimd
aimd-SamePermits snap l =
    let P : Limiter × ℕ → Type 0 = λ x. SamePermits l x.0 in
    let grown = grow (round_float (l.increase_credit + l.cfg.increase_rate.num)) l in
    let need = ceil (times (whole l.limit) l.cfg.utilization) in
    let gated = if ltb snap.max_in_flight need then (l, l.limit) else grown in
    if-intro P (ltb 0 snap.fails) (record l { increase_credit = 0 }, cut l) gated (same_permits l)
      (if-intro P (ltb snap.max_in_flight need) (l, l.limit) grown (same_permits l)
        (same_permits l))

-- A control law changes the credit at most.
proposed-SamePermits :
    (a : Algorithm) (snap : WindowSnap) (l : Limiter) → SamePermits l (proposed a snap l).0
unfolding proposed
proposed-SamePermits by_aimd snap l = aimd-SamePermits snap l
proposed-SamePermits by_vegas snap l = same_permits l
proposed-SamePermits by_gradient snap l = same_permits l
proposed-SamePermits (unknown n) snap l = aimd-SamePermits snap l

pub adjust-Moves :
    (draw : Draw) (snap : WindowSnap) (l : Limiter) → IsBalanced l → Moves l (adjust draw snap l)
unfolding adjust conclude
adjust-Moves draw snap l b =
    let (l', next) = proposed l.cfg.algorithm snap l in
    let same = proposed-SamePermits l.cfg.algorithm snap l in
    let m = Moves-refl l l' same b in
    let (low, high) = clamp_lem l.cfg (jitter l.cfg draw l.limit next) b.usable in
    let cfg_max = ap (λ c. c.max_limit) same.0.0 in
    let cfg_min = ap (λ c. c.min_limit) same.0.0 in
    Moves-trans l l' _ m
      (set_limit-Moves _ l' (omega (arith, low, cfg_min)) (omega (arith, high, cfg_max)) m.balanced)

update_estimators-SamePermits :
    (snap : WindowSnap) (l : Limiter) → SamePermits l (update_estimators snap l)
unfolding update_estimators
update_estimators-SamePermits snap l =
    let avg =
      if leb l.avg_lat.num 0
      then snap.mean_rtt
      else blend l.cfg.smoothing snap.mean_rtt l.avg_lat in
    if-intro (SamePermits l) (leb snap.mean_rtt.num 0) l
      (record l { avg_lat = avg; min_lat = decayed l.cfg.min_lat_decay avg l.min_lat })
      (same_permits l) (same_permits l)

reset_window-SamePermits : (now : ℕ) (l : Limiter) → SamePermits l (reset_window now l)
unfolding reset_window
reset_window-SamePermits now l = same_permits l

add_sample-SamePermits :
    (now latency : ℕ) (ok : Bool) (l : Limiter) → SamePermits l (add_sample now latency ok l)
unfolding add_sample
add_sample-SamePermits now latency ok l = same_permits l

note_peak-SamePermits : (l : Limiter) → SamePermits l (note_peak l)
note_peak-SamePermits l =
    if-intro (SamePermits l) (ltb l.window.max_in_flight l.in_flight)
      (record l { window = record l.window { max_in_flight = l.in_flight } }) l (same_permits l)
      (same_permits l)

pub close_window-Moves :
    (now : ℕ) (draw : Draw) (l : Limiter) → IsBalanced l → Moves l (close_window now draw l).0
unfolding close_window
close_window-Moves now draw l b =
    let snap = window_snapshot l in
    let adjusted = adjust draw snap l in
    let estimated = update_estimators snap adjusted in
    let m = adjust-Moves draw snap l b in
    let e =
      Moves-refl adjusted estimated (update_estimators-SamePermits snap adjusted) m.balanced in
    if-intro (λ (x : Limiter × Option LimitChange). Moves l x.0) _ _ _
      (Moves-trans l adjusted _ m (
        Moves-trans adjusted estimated _ e
          (Moves-refl estimated _ (reset_window-SamePermits now estimated) e.balanced)))
      (Moves-refl l _ (reset_window-SamePermits now l) b)

pub record_locked-Moves :
    (now : ℕ) (draw : Draw) (ok : Bool) (latency : ℕ) (l : Limiter)
    → IsBalanced l
    → Moves l (record_locked now draw ok latency l).0
unfolding record_locked
record_locked-Moves now draw ok latency l b =
    let peak = note_peak l in
    let m = Moves-refl l peak (note_peak-SamePermits l) b in
    let sampled =
      if-intro (Moves l) (ltb 0 latency) (add_sample now latency ok peak) peak
        (Moves-trans l peak _ m
          (Moves-refl peak _ (add_sample-SamePermits now latency ok peak) m.balanced))
        m in
    let l' = if ltb 0 latency then add_sample now latency ok peak else peak in
    if-intro (λ (x : Limiter × Option LimitChange). Moves l x.0) _ _ _ sampled
      (Moves-trans l l' _ sampled (close_window-Moves now draw l' sampled.balanced))

-- Whatever the latency, the draws and the algorithm.
pub record_outcome-Moves :
    (now : ℕ) (draw : Draw) (ok : Bool) (latency : ℕ) (l : Limiter)
    → IsBalanced l
    → Moves l (record_outcome now draw ok latency l).0
unfolding record_outcome
record_outcome-Moves now draw ok latency l b =
    let counted = record l { counters = count_outcome ok l.counters } in
    let m = Moves-refl l counted (same_permits l) b in
    if-intro (λ (x : Limiter × Option LimitChange). Moves l x.0) _ _ _ m
      (Moves-trans l counted _ m (record_locked-Moves now draw ok latency counted m.balanced))
