-- ===== src/Adaptx/Permits.antt =====
-- adaptx/adaptx.go: the permits under any interleaving of the methods' calls.
use urx.Base.{ℕ, ◌+◌, ◌≤◌, ◌≡◌, ◌⊎◌, inl, refl, false, Option, List, [], ◌∷◌, arith}
use urx.Adaptx.Config.{LimiterOption, new_config}
use urx.Adaptx.Usable.{new_config-IsUsable}
use urx.Adaptx.Limiter.{new}
use urx.Adaptx.Callers.{Callers, Event, step, run}
use urx.Adaptx.Steps.{held_of, flying_of, Inv, IsCalm, step-Inv}
use urx.Adaptx.Moves.{send_all_fits}

abbrev pub AreCalm : List Event → Callers → Type 0
AreCalm [] c = Unit
AreCalm (e ∷ es) c = IsCalm e c × AreCalm es (step e c)

run-Inv : (es : List Event) (c : Callers) → AreCalm es c → Inv c → Inv (run es c)
run-Inv [] c k v = v
run-Inv (e ∷ es) c k v = run-Inv es (step e c) k.1 (step-Inv e c k.0 v)

abbrev pub starts : ℕ → List (Option LimiterOption) → Callers
starts now opts = record { limiter = new now opts; calls = []; changes = [] }

pub starts-Inv : (now : ℕ) (opts : List (Option LimiterOption)) → Inv (starts now opts)
unfolding new
starts-Inv now opts =
    let u = (new_config-IsUsable opts).0 in
    let cfg = new_config opts in
    let fits = send_all_fits cfg.max_limit cfg.initial_limit 0 (omega (arith, u.initial_max)) in
    record {
      balanced = record {
        usable = u;
        above = u.min_initial;
        below = u.initial_max;
        covered = omega (arith, fits);
        capped = omega (arith, u.initial_max);
      };
      flight = refl;
      nested = omega arith;
      bounded = omega (arith, fits);
      exact = λ e. omega (arith, fits);
      owes = λ e. inl refl;
    }

-- For every interleaving of the calls' steps from a new limiter, whatever options it got, where no
-- call is about to be admitted or about to give back its permit when the statistics are reset: the
-- limit stays within its bounds, the counter is the number of calls in flight, and it is at most the
-- limit and the debt, and at most max_limit.
pub run-limits :
    (es : List Event) (now : ℕ) (opts : List (Option LimiterOption))
    → AreCalm es (starts now opts)
    → let c = run es (starts now opts) in
      let l = c.limiter in
      (l.cfg.min_limit ≤ l.limit)
      × (l.limit ≤ l.cfg.max_limit)
      × (l.in_flight ≡ flying_of c.calls)
      × (l.in_flight ≤ l.limit + l.debt)
      × (l.in_flight ≤ l.cfg.max_limit)
run-limits es now opts k =
    let c = run es (starts now opts) in
    let v : Inv c = run-Inv es (starts now opts) k (starts-Inv now opts) in
    let within : c.limiter.in_flight ≤ c.limiter.limit + c.limiter.debt =
      omega (arith, v.flight, v.nested, v.bounded) in
    (v.balanced.above, v.balanced.below, v.flight, within, omega (arith, within, v.balanced.capped))

-- Under the same condition, while the limiter is open: the free permits and those that calls hold
-- are together the limit and the debt, no debt is left while a permit is free, and so, without a
-- debt, none is lost or made up.
pub run-permits :
    (es : List Event) (now : ℕ) (opts : List (Option LimiterOption))
    → AreCalm es (starts now opts)
    → (run es (starts now opts)).limiter.is_shut ≡ false
    → let c = run es (starts now opts) in
      (c.limiter.sem + held_of c.calls ≡ c.limiter.limit + c.limiter.debt)
      × ((c.limiter.debt ≡ 0) ⊎ (c.limiter.sem ≡ 0))
run-permits es now opts k o =
    let v = run-Inv es (starts now opts) k (starts-Inv now opts) in (v.exact o, v.owes o)
