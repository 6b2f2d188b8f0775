-- ===== src/Shedx/Inflight.antt =====
-- shedx/shedx.go: the in-flight count under any interleaving of the methods' calls.
use urx.Base.{
  ℕ, ◌+◌, ◌≤◌, ◌<◌, ◌≡◌, ◌⊎◌, inl, inr, refl, sym, ap, subst, ◌∙◌, Bool, true, false, Option, some,
  List, [], ◌∷◌, arith, if◌then◌else◌, if_false, if-intro, get_elem?, set, count_if, count_if-write,
  Bool-cases, Option-cases,
}
use urx.Shedx.Config.{Priority, ShedOption, IsUsable, new_config-IsUsable}
use urx.Shedx.Shedder.{
  Shedder, new, is_critical, admits_below, admits, allow, Reservation, reserved, refused, shut_down,
  try_reserve, commit_reservation, acquire, count_admission, release, reset_stats, close,
}
use urx.Shedx.Admission.{admits_below-bound}
use urx.Shedx.Callers.{
  Token, Callers, Event, arrive, give_back, ask, shut, clear_stats, with_token, step, run, is_held,
  is_ordinary,
}

-- The counter is the number of slots that are held, and the requests that are not critical hold
-- fewer than the capacity.
pub record Inv (c : Callers) : Type 0 where
  pub usable : IsUsable c.shedder.cfg
  pub exact : c.shedder.inflight ≡ count_if is_held c.tokens
  pub bounded : count_if is_ordinary c.tokens < c.shedder.cfg.capacity

ordinary_held : (ts : List Token) → count_if is_ordinary ts ≤ count_if is_held ts
ordinary_held [] = omega arith
ordinary_held (t ∷ ts) = ground (arith, ordinary_held ts)

admits-frame :
    (p : Priority) (n : ℕ) (s : Shedder)
    → ((admits p n s).0.cfg ≡ s.cfg) × ((admits p n s).0.inflight ≡ s.inflight)
unfolding admits
admits-frame p n s = elim (Bool-cases (is_critical p)) [
  | inl e ↦ rw (e, admits) (refl, refl)
  | inr e ↦ rw (e, admits) (refl, refl)
]

allow-frame :
    (p : Priority) (s : Shedder)
    → ((allow p s).0.cfg ≡ s.cfg) × ((allow p s).0.inflight ≡ s.inflight)
unfolding allow
allow-frame p s =
    if-intro (λ (x : Shedder × Bool). (x.0.cfg ≡ s.cfg) × (x.0.inflight ≡ s.inflight)) s.is_shut
      (s, false) _ (refl, refl) (admits-frame p (s.inflight + 1) s)

-- Who is admitted is critical or leaves room.
admits-room :
    (p : Priority) (n : ℕ) (s : Shedder)
    → IsUsable s.cfg
    → (admits p n s).1 ≡ true
    → (is_critical p ≡ true) ⊎ (n < s.cfg.capacity)
unfolding admits
admits-room p n s u e = elim (Bool-cases (is_critical p)) [
  | inl k ↦ inl k
  | inr k ↦
      let (ok, shedding) = admits_below s.cfg s.shedding n p in
      let other_way : ok ≡ true =
        sym (
          ap (λ (x : Shedder × Bool). x.1)
            (if_false (is_critical p) (s, true) (record s { shedding = shedding }, ok) k))
        ∙ e in
      inr (admits_below-bound s.cfg s.shedding n p u other_way)
]

-- What a reservation does: the count is one more and the request was admitted, or as before.
abbrev pub Reserves : Priority → Shedder → Shedder × Reservation → Type 0
Reserves p s (s', reserved n) =
    (s'.cfg ≡ s.cfg)
    × (s'.inflight ≡ s.inflight + 1)
    × ((is_critical p ≡ true) ⊎ (s.inflight + 1 < s.cfg.capacity))
Reserves p s (s', _) = (s'.cfg ≡ s.cfg) × (s'.inflight ≡ s.inflight)

pub count_admission-Reserves :
    (p : Priority) (s : Shedder) (x : Shedder × Reservation)
    → Reserves p s x
    → Reserves p s (count_admission x)
count_admission-Reserves p s (s', reserved n) o = o
count_admission-Reserves p s (s', refused) o = o
count_admission-Reserves p s (s', shut_down) o = o

reserve-Reserves :
    (ok closes : Bool) (p : Priority) (s s' : Shedder)
    → s'.cfg ≡ s.cfg
    → s'.inflight ≡ s.inflight
    → (ok ≡ true → (is_critical p ≡ true) ⊎ (s.inflight + 1 < s.cfg.capacity))
    → Reserves p s (
        if ok
        then commit_reservation closes (s.inflight + 1) (record s' { inflight = s.inflight + 1 })
        else (s', refused))
reserve-Reserves false closes p s s' e d f = (e, d)
reserve-Reserves true true p s s' e d f = (e, omega arith)
reserve-Reserves true false p s s' e d f = (e, refl, f refl)

pub try_reserve-Reserves :
    (closes : Bool) (p : Priority) (s : Shedder)
    → IsUsable s.cfg
    → Reserves p s (try_reserve closes p s)
unfolding try_reserve
try_reserve-Reserves closes p s u =
    let tried = admits p (s.inflight + 1) s in
    let (e, d) = admits-frame p (s.inflight + 1) s in
    if-intro (Reserves p s) s.is_shut (s, shut_down) _ (refl, refl)
      (reserve-Reserves tried.1 closes p s tried.0 e d (admits-room p (s.inflight + 1) s u))

with_token-Inv :
    (p : Priority) (x : Shedder × Reservation) (c : Callers)
    → Reserves p c.shedder x
    → Inv c
    → Inv (with_token p x c.tokens)
with_token-Inv p (s, reserved n) c (e, d, room) i = record {
  usable = subst IsUsable (sym e) i.usable;
  exact = omega (arith, d, i.exact);
  bounded =
      let capacity = ap (λ k. k.capacity) e in
      let held = ordinary_held c.tokens in
      elim room [
        | inl k ↦ ground (arith, k, capacity, i.bounded)
        | inr r ↦ ground (arith, r, capacity, i.bounded, i.exact, held)
      ];
}
with_token-Inv p (s, refused) c (e, d) i = record {
  usable = subst IsUsable (sym e) i.usable;
  exact = d ∙ i.exact;
  bounded = let capacity = ap (λ k. k.capacity) e in omega (arith, capacity, i.bounded);
}
with_token-Inv p (s, shut_down) c (e, d) i = record {
  usable = subst IsUsable (sym e) i.usable;
  exact = d ∙ i.exact;
  bounded = let capacity = ap (λ k. k.capacity) e in omega (arith, capacity, i.bounded);
}

-- A token is marked as given back.
abbrev marked : Token → Token
marked t = record t { done = true }

given-Inv :
    (i : ℕ) (t : Token) (c : Callers)
    → get_elem? c.tokens i ≡ some t
    → Inv c
    → Inv (record { shedder = (release t.done c.shedder).0; tokens = set c.tokens i (marked t) })
unfolding release
given-Inv i t c f v = record {
  usable =
      if-intro (λ (x : Shedder × Bool). IsUsable x.0.cfg) t.done (c.shedder, true) _ v.usable
        v.usable;
  exact =
      let written = count_if-write is_held c.tokens i t (marked t) f in
      ground (arith, written, v.exact);
  bounded =
      let written = count_if-write is_ordinary c.tokens i t (marked t) f in
      ground (arith, written, v.bounded);
}

step-Inv : (e : Event) (c : Callers) → Inv c → Inv (step e c)
unfolding step acquire allow close reset_stats
step-Inv (arrive p closes) c i =
    with_token-Inv p (acquire closes p c.shedder) c
      (count_admission-Reserves p c.shedder (try_reserve closes p c.shedder)
        (try_reserve-Reserves closes p c.shedder i.usable))
      i
step-Inv (give_back k) c i = elim (Option-cases (get_elem? c.tokens k)) [
  | inl f ↦ rw (f, step) i
  | inr (t, f) ↦ rw (f, step) (given-Inv k t c f i)
]
step-Inv (ask p) c i =
    let (e, d) = allow-frame p c.shedder in
    record {
      usable = subst IsUsable (sym e) i.usable;
      exact = d ∙ i.exact;
      bounded = let capacity = ap (λ k. k.capacity) e in omega (arith, capacity, i.bounded);
    }
step-Inv shut c i = record { usable = i.usable; exact = i.exact; bounded = i.bounded }
step-Inv clear_stats c i = record { usable = i.usable; exact = i.exact; bounded = i.bounded }

run-Inv : (es : List Event) (c : Callers) → Inv c → Inv (run es c)
run-Inv [] c i = i
run-Inv (e ∷ es) c i = run-Inv es (step e c) (step-Inv e c i)

-- For every sequence of events from a new shedder, whatever options it got: the in-flight count is
-- the number of tokens that are not given back, and those of requests that are not critical are
-- fewer than the capacity. (A capacity of 1 leaves no room for any of them.)
pub run-inflight :
    (es : List Event) (grain : ℕ) (opts : List (Option ShedOption))
    → 0 < grain
    → let c = run es (record { shedder = new grain opts; tokens = [] }) in
      (c.shedder.inflight ≡ count_if is_held c.tokens)
      × (count_if is_ordinary c.tokens < c.shedder.cfg.capacity)
unfolding new
run-inflight es grain opts g =
    let usable = new_config-IsUsable grain opts g in
    let i =
      run-Inv es (record { shedder = new grain opts; tokens = [] })
        (record { usable = usable; exact = refl; bounded = usable.some_capacity }) in
    (i.exact, i.bounded)
