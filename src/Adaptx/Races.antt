-- ===== src/Adaptx/Races.antt =====
-- adaptx/adaptx.go: `ResetStats` between the permit that a call takes and its admission. It refills
-- the semaphore by the count in flight, which does not have that call yet.
use urx.Base.{
  ℕ, suc, ◌+◌, ◌-◌, ◌≤◌, ◌≡◌, refl, ap, subst, sym, ◌∙◌, false, Option, some, List, [], ◌∷◌, arith,
  get_elem?, set, if◌then◌else◌, if_false, ltb, ge→ltb,
}
use urx.Adaptx.Config.{LimiterOption, new_config}
use urx.Adaptx.Usable.{new_config-IsUsable}
use urx.Adaptx.Types.{Limiter}
use urx.Adaptx.Limiter.{
  new, admit, take_from, take_permit, finish_acquire, reset_stats, reconcile_permits, reject,
  return_permit,
}
use urx.Adaptx.Callers.{
  Callers, Event, take, enter, clear_stats, taken, working, with_permit, entered, enter_at, step,
  run,
}
use urx.Adaptx.Moves.{send_all_fits}
use urx.Adaptx.Steps.{held_of}
use urx.Adaptx.Permits.{starts}

take-step :
    (c : Callers) (n : ℕ)
    → c.limiter.sem ≡ suc n
    → step take c ≡ record c { limiter = record c.limiter { sem = n }; calls = taken ∷ c.calls }
unfolding step take_permit
take-step c n e = ap (λ s. with_permit (take_from s c.limiter) c) e

enter-step :
    (c : Callers) (i : ℕ)
    → c.limiter.is_shut ≡ false
    → get_elem? c.calls i ≡ some taken
    → step (enter i) c ≡ record c { limiter = admit c.limiter; calls = set c.calls i working }
unfolding step enter_at finish_acquire
enter-step c i o f =
    ap (λ p. enter_at i p c) f
    ∙ ap (λ x. entered i x c)
        (if_false c.limiter.is_shut (reject (return_permit c.limiter), false) _ o)

reset-sem :
    (now : ℕ) (l : Limiter)
    → l.in_flight ≡ 0
    → l.cfg.initial_limit ≤ l.cfg.max_limit
    → let l' = reset_stats now l in
      (l'.sem ≡ l.cfg.initial_limit) × (l'.limit ≡ l.cfg.initial_limit)
unfolding reset_stats reconcile_permits
reset-sem now l z m =
    let limit =
      if_false (ltb l.cfg.initial_limit l.in_flight) l.in_flight l.cfg.initial_limit
        (ge→ltb l.cfg.initial_limit l.in_flight (omega (arith, z))) in
    let reset_limit =
      if ltb l.cfg.initial_limit l.in_flight then l.in_flight else l.cfg.initial_limit in
    (
      send_all_fits l.cfg.max_limit (reset_limit - l.in_flight) 0 (omega (arith, limit, m, z))
          ∙ omega (arith, limit, z),
      limit,
    )

abbrev pub overtaking : ℕ → List Event
overtaking now = take ∷ clear_stats now ∷ take ∷ enter 0 ∷ enter 1 ∷ []

abbrev Overtaken : Callers → Type 0
Overtaken c = (c.limiter.in_flight ≡ 2) × (c.limiter.sem + held_of c.calls ≡ c.limiter.limit + 1)

abbrev idle_callers : Limiter → Callers
idle_callers l = record { limiter = l; calls = []; changes = [] }

overtaking-Overtaken :
    (now n k : ℕ) (l : Limiter)
    → l.sem ≡ suc n
    → l.is_shut ≡ false
    → l.in_flight ≡ 0
    → l.cfg.initial_limit ≡ suc k
    → l.cfg.initial_limit ≤ l.cfg.max_limit
    → Overtaken (run (overtaking now) (idle_callers l))
unfolding step reset_stats reconcile_permits admit
overtaking-Overtaken now n k l e o z i m =
    let c0 = idle_callers l in
    let taken_once : Callers = record {
      limiter = record l { sem = n };
      calls = taken ∷ [];
      changes = [];
    } in
    let c2 = step (clear_stats now) taken_once in
    let (sem, limit) = reset-sem now (record l { sem = n }) z m in
    let c3 : Callers = record c2 {
      limiter = record c2.limiter { sem = k };
      calls = taken ∷ taken ∷ [];
    } in
    let c4 : Callers = record c3 { limiter = admit c3.limiter; calls = working ∷ taken ∷ [] } in
    let c5 : Callers = record c4 { limiter = admit c4.limiter; calls = working ∷ working ∷ [] } in
    let path : run (overtaking now) c0 ≡ c5 =
      ap (λ c. step (enter 1) (step (enter 0) (step take (step (clear_stats now) c))))
        (take-step c0 n e)
      ∙ ap (λ c. step (enter 1) (step (enter 0) c)) (take-step c2 k (sem ∙ i))
      ∙ ap (step (enter 1)) (enter-step c3 0 o refl)
      ∙ enter-step c4 1 o refl in
    subst Overtaken (sym path) (omega (arith, z), omega (arith, limit, i))

-- From every new limiter there is an order of steps, with a reset of the statistics between the
-- permit and the admission of a first call, after which two calls are in flight and the permits, free
-- ones and held ones, are one more than the limit; with a maximum of 1 that is more calls than the
-- maximum.
pub reset_overtakes :
    (now now' : ℕ) (opts : List (Option LimiterOption))
    → let c = run (overtaking now') (starts now opts) in
      (c.limiter.in_flight ≡ 2) × (c.limiter.sem + held_of c.calls ≡ c.limiter.limit + 1)
unfolding new
reset_overtakes now now' opts =
    let u = (new_config-IsUsable opts).0 in
    let cfg = new_config opts in
    let start = cfg.initial_limit - 1 in
    let fits = send_all_fits cfg.max_limit cfg.initial_limit 0 (omega (arith, u.initial_max)) in
    overtaking-Overtaken now' start start (new now opts)
      (omega (arith, fits, u.min_initial, u.min_positive)) refl refl
      (omega (arith, u.min_initial, u.min_positive)) u.initial_max
