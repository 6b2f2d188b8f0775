-- ===== src/Adaptx/Releases.antt =====
-- adaptx/adaptx.go: the permits of the limiter and of its callers, where one gives its permit back, and where the limiter is closed or reset.
use urx.Base.{
  ℕ, suc, ◌-◌, ◌≤◌, ◌<◌, ◌≡◌, inl, inr, refl, Bool, true, false, arith, if◌then◌else◌, if-intro,
  if_true, Bool-cases, ltb, ltb→lt, ltb→ge, lt→ltb,
}
use urx.Adaptx.Types.{Limiter}
use urx.Adaptx.Control.{send}
use urx.Adaptx.Limiter.{
  finish_release, release_permit, signal_drain_if_idle, reset_stats, reconcile_permits,
}
use urx.Adaptx.Moves.{Moves-refl, same_permits, send_all_fits}
use urx.Adaptx.Holds.{Holds, recorded-Holds}

pub paid-Holds :
    (l : Limiter) (held flying : ℕ)
    → 0 < l.debt
    → flying ≤ held
    → Holds l (suc held) flying
    → Holds (record l { debt = l.debt - 1 }) held flying
paid-Holds l held flying d k h = record {
  balanced = record {
    usable = h.balanced.usable;
    above = h.balanced.above;
    below = h.balanced.below;
    covered = omega (arith, d, h.bounded);
    capped = omega (arith, h.balanced.capped);
  };
  flight = h.flight;
  nested = k;
  bounded = omega (arith, d, h.bounded);
  exact = λ o. let x = h.exact o in omega (arith, d, x);
  owes = λ o. elim (h.owes o) [ inl z ↦ absurd (omega (arith, d, z)) | inr z ↦ inr z ];
}

pub sent-Holds :
    (l : Limiter) (held flying : ℕ)
    → l.debt ≡ 0
    → flying ≤ held
    → Holds l (suc held) flying
    → Holds (record l { sem = send l.cfg.max_limit l.sem }) held flying
sent-Holds l held flying d k h =
    let room =
      if_true (ltb l.sem l.cfg.max_limit) (suc l.sem) l.sem
        (lt→ltb l.sem l.cfg.max_limit (omega (arith, h.bounded, h.balanced.capped))) in
    record {
      balanced = record {
        usable = h.balanced.usable;
        above = h.balanced.above;
        below = h.balanced.below;
        covered = omega (arith, room, h.bounded);
        capped = h.balanced.capped;
      };
      flight = h.flight;
      nested = k;
      bounded = omega (arith, room, h.bounded);
      exact = λ o. let x = h.exact o in omega (arith, room, x);
      owes = λ o. inl d;
    }

pub released-Holds :
    (l : Limiter) (held flying : ℕ)
    → flying ≤ held
    → Holds l (suc held) flying
    → Holds (release_permit l) held flying
unfolding release_permit
released-Holds l held flying k h = elim (Bool-cases (ltb 0 l.debt)) [
  | inl e ↦ rw (e, release_permit) (paid-Holds l held flying (ltb→lt 0 l.debt e) k h)
  | inr e ↦
      rw (e, release_permit)
        (sent-Holds l held flying (let z = ltb→ge 0 l.debt e in omega (arith, z)) k h)
]

pub signalled-Holds :
    (l : Limiter) (held flying : ℕ)
    → Holds l held flying
    → Holds (signal_drain_if_idle l) held flying
unfolding signal_drain_if_idle
signalled-Holds l held flying h =
    if-intro (λ x. Holds x held flying) _ _ _
      (recorded-Holds l _ held flying (Moves-refl l _ (same_permits l) h.balanced) h) h

pub finished-Holds :
    (last : Bool) (l : Limiter) (held flying : ℕ)
    → flying ≤ held
    → Holds l (suc held) flying
    → Holds (finish_release last l) held flying
unfolding finish_release
finished-Holds true l held flying k h =
    signalled-Holds (release_permit l) held flying (released-Holds l held flying k h)
finished-Holds false l held flying k h = released-Holds l held flying k h

-- A closed limiter with as many free permits, or none.
pub closed-Holds :
    (l : Limiter) (b : Bool) (n held flying : ℕ)
    → b ≡ true
    → n ≤ l.sem
    → Holds l held flying
    → Holds (record l { is_shut = b; sem = n }) held flying
closed-Holds l b n held flying e k h = record {
  balanced = record {
    usable = h.balanced.usable;
    above = h.balanced.above;
    below = h.balanced.below;
    covered = omega (arith, k, h.balanced.covered);
    capped = h.balanced.capped;
  };
  flight = h.flight;
  nested = h.nested;
  bounded = omega (arith, k, h.bounded);
  exact = λ o. cc;
  owes = λ o. cc;
}

-- A reset while every call that holds a permit is in flight.
pub reset-Holds :
    (now : ℕ) (l : Limiter) (held flying : ℕ)
    → held ≡ flying
    → Holds l held flying
    → Holds (reset_stats now l) held flying
unfolding reset_stats reconcile_permits
reset-Holds now l held flying q h =
    let limit = if ltb l.cfg.initial_limit l.in_flight then l.in_flight else l.cfg.initial_limit in
    let u = h.balanced.usable in
    let flying_max : flying ≤ l.cfg.max_limit = omega (arith, q, h.bounded, h.balanced.capped) in
    let limit_max : limit ≤ l.cfg.max_limit = ground (arith, flying_max, h.flight, u) in
    let limit_min : l.cfg.min_limit ≤ limit = ground (arith, u) in
    let limit_flight : l.in_flight ≤ limit = ground arith in
    let fits = send_all_fits l.cfg.max_limit (limit - l.in_flight) 0 (omega (arith, limit_max)) in
    record {
      balanced = record {
        usable = u;
        above = limit_min;
        below = limit_max;
        covered = omega (arith, fits);
        capped = omega (arith, limit_max);
      };
      flight = h.flight;
      nested = h.nested;
      bounded = omega (arith, fits, q, h.flight, limit_flight);
      exact = λ o. omega (arith, fits, q, h.flight, limit_flight);
      owes = λ o. inl refl;
    }
