-- ===== src/Adaptx/Calls.antt =====
-- adaptx/adaptx.go: a whole call of `Execute`.
use urx.Base.{
  ℕ, suc, ◌-◌, ◌≤◌, ◌≡◌, refl, ap, subst, sym, ◌∙◌, String, Bool, true, false, none, arith,
  if◌then◌else◌, if_true, if_false, if-intro, if-cases, ltb→lt, ◌&&◌, ltb, lt→ltb, ◌==◌,
}
use urx.Panix.Recover.{Outcome, safe}
use urx.Adaptx.Types.{Limiter, Draw}
use urx.Adaptx.Control.{send}
use urx.Adaptx.Window.{record_outcome}
use urx.Adaptx.Limiter.{
  admit, reject, take_from, return_permit, finish_acquire, leave, release_permit, finish_release,
  release, signal_drain_if_idle,
}
use urx.Adaptx.Execute.{
  has_permit, after_ctx, admission, with_sem, select_permit, acquire, Started, runs_with,
  snapshot_of, started, begin_execute, is_ok, release_after_execute, end_execute,
}
use urx.Adaptx.Records.{record_outcome-Moves}
use urx.Adaptx.Holds.{Holds, recorded-Holds, taken-Holds, admitted-Holds, left-Holds}
use urx.Adaptx.Releases.{finished-Holds}

-- The limiter while the callback of a call runs that found a permit.
abbrev pub running : ℕ → Limiter → Limiter
running n l = admit (record l { sem = n })

pub begin_execute-runs :
    (n : ℕ) (l : Limiter)
    → l.is_shut ≡ false
    → l.sem ≡ suc n
    → begin_execute true none has_permit l ≡ (running n l, runs_with (snapshot_of (running n l)))
unfolding begin_execute acquire select_permit with_sem finish_acquire
begin_execute-runs n l o e = ap started (
    if_false l.is_shut _ (after_ctx none has_permit l) o
    ∙ ap (λ s. with_sem (take_from s l) l) e
    ∙ ap admission (if_false l.is_shut (reject (return_permit (record l { sem = n })), false) _ o))

-- Recording, counting down and giving back, in terms of the numbers of permits held.
release-Holds :
    (now : ℕ) (draw : Draw) (ok : Bool) (latency : ℕ) (l : Limiter) (held flying : ℕ)
    → flying ≤ held
    → Holds l (suc held) (suc flying)
    → Holds (release now draw ok latency l).0 held flying
unfolding release
release-Holds now draw ok latency l held flying k h =
    let recorded = (record_outcome now draw ok latency l).0 in
    let left = leave recorded in
    finished-Holds (left.in_flight == 0) left held flying k (
      left-Holds recorded (suc held) flying (
        recorded-Holds l recorded (suc held) (suc flying)
          (record_outcome-Moves now draw ok latency l h.balanced) h))

-- A call of Execute on an open limiter that finds a permit runs its callback, and holds one permit
-- until the callback ends, in a panic too; then the count in flight is what it was, and the free
-- permits and those that others hold are again the limit and the debt, whatever the outcome and the
-- latency made of the limit.
pub execute-Holds {ℓ} :
    {A : Type ℓ} (zero_value : A) (op : String) (now : ℕ) (draw : Draw) (skipped : Bool)
    (latency : ℕ) (outcome : Outcome A) (l : Limiter) (n held flying : ℕ)
    → Holds l held flying
    → l.is_shut ≡ false
    → l.sem ≡ suc n
    → let (l1, call) = begin_execute true none has_permit l in
      let l2 = (end_execute zero_value op now draw skipped latency outcome l1).0 in
      (call ≡ runs_with (snapshot_of l1)) × Holds l1 (suc held) (suc flying) × Holds l2 held flying
unfolding end_execute release_after_execute
execute-Holds zero_value op now draw skipped latency outcome l n held flying h o e =
    let running_holds =
      admitted-Holds (record l { sem = n }) (suc held) flying (omega (arith, h.nested))
        (taken-Holds l n held flying e h) in
    let err = (safe zero_value op outcome).1 in
    subst
      (λ (x : Limiter × Started).
        (x.1 ≡ runs_with (snapshot_of x.0))
        × Holds x.0 (suc held) (suc flying)
        × Holds (end_execute zero_value op now draw skipped latency outcome x.0).0 held flying)
      (sym (begin_execute-runs n l o e))
      (
        refl,
        running_holds,
        release-Holds now draw (is_ok err) (if skipped then 0 else latency) (running n l) held
            flying h.nested running_holds,
      )

-- What a skipped call leaves as it was.
abbrev SameFeedback : Limiter → Limiter → Type 0
SameFeedback l l' =
    (l'.limit ≡ l.limit)
    × (l'.debt ≡ l.debt)
    × (l'.sem ≡ l.sem)
    × (l'.in_flight ≡ l.in_flight)
    × (l'.window ≡ l.window)
    × (l'.ring ≡ l.ring)
    × (l'.seen ≡ l.seen)
    × (l'.avg_lat ≡ l.avg_lat)
    × (l'.min_lat ≡ l.min_lat)
    × (l'.increase_credit ≡ l.increase_credit)

-- The permit of a skipped call comes back to where it was.
skipped-SameFeedback :
    (now : ℕ) (draw : Draw) (ok : Bool) (n : ℕ) (l : Limiter)
    → l.debt ≡ 0
    → l.sem ≡ suc n
    → l.sem ≤ l.cfg.max_limit
    → SameFeedback l (release now draw ok 0 (running n l)).0
unfolding release record_outcome leave finish_release release_permit signal_drain_if_idle admit
skipped-SameFeedback now draw ok n l d e m =
    let P : Limiter → Type 0 = SameFeedback l in
    let left = leave (record_outcome now draw ok 0 (running n l)).0 in
    let room =
      if_true (ltb n l.cfg.max_limit) (suc n) n (lt→ltb n l.cfg.max_limit (omega (arith, e, m))) in
    let given : P (release_permit left) =
      if-cases P (ltb 0 l.debt) (record left { debt = l.debt - 1 })
        (record left { sem = send l.cfg.max_limit n })
        (λ k. let z = ltb→lt 0 l.debt k in absurd (omega (arith, z, d)))
        (λ k. (refl, refl, room ∙ sym e, omega arith, refl, refl, refl, refl, refl, refl)) in
    if-intro P (left.in_flight == 0) (signal_drain_if_idle (release_permit left))
      (release_permit left)
      (if-intro P ((release_permit left).is_shut && (release_permit left).in_flight == 0)
        (record (release_permit left) { drained = true }) (release_permit left) given given)
      given

-- A call of Execute whose callback asks to be skipped feeds nothing back: on an open limiter without
-- a debt that has a permit free, the limit, the permits, the count in flight, the window, the samples
-- and the estimators are afterwards what they were, whether the callback fails, panics or succeeds.
pub execute_skips {ℓ} :
    {A : Type ℓ} (zero_value : A) (op : String) (now : ℕ) (draw : Draw) (latency : ℕ)
    (outcome : Outcome A) (l : Limiter) (n : ℕ)
    → l.is_shut ≡ false
    → l.debt ≡ 0
    → l.sem ≡ suc n
    → l.sem ≤ l.cfg.max_limit
    → SameFeedback l
        (end_execute zero_value op now draw true latency outcome
          (begin_execute true none has_permit l).0).0
unfolding end_execute release_after_execute
execute_skips zero_value op now draw latency outcome l n o d e m =
    subst
      (λ (x : Limiter × Started).
        SameFeedback l (end_execute zero_value op now draw true latency outcome x.0).0)
      (sym (begin_execute-runs n l o e))
      (skipped-SameFeedback now draw (is_ok (safe zero_value op outcome).1) n l d e m)
