-- ===== src/Adaptx/Steps.antt =====
-- adaptx/adaptx.go: the permits' balance over a step of a call.
use urx.Base.{
  ℕ, zero, suc, ◌+◌, ◌≤◌, ◌≡◌, refl, sym, subst, Bool, true, false, Option, none, some, List, [],
  ◌∷◌, arith, if◌then◌else◌, if-intro, if-cases, ◌==◌, get_elem?, set, count_if, count_if-write,
  erase_idx, count_if-erase_idx,
}
use urx.Adaptx.Types.{Limiter, Draw, LimitChange}
use urx.Adaptx.Window.{record_outcome}
use urx.Adaptx.Limiter.{
  reject, take_from, take_permit, finish_acquire, leave, finish_release, signal_drain_if_idle,
  begin_close, end_close, return_permit, admit,
}
use urx.Adaptx.Callers.{
  Phase, taken, working, recorded, leaving, gone, Callers, Event, take, turn_away, enter, settle,
  count_down, give_back, shut, drain, clear_stats, step, holds_permit, is_in_flight, with_permit,
  entered, settled, shut_with, enter_at, settle_at, count_down_at, give_back_at,
}
use urx.Adaptx.Holds.{
  Holds, recorded-Holds, taken-Holds, admitted-Holds, returned-Holds, left-Holds,
}
use urx.Adaptx.Releases.{finished-Holds, signalled-Holds, closed-Holds, reset-Holds}
use urx.Adaptx.Moves.{Moves, SamePermits, Moves-refl, same_permits}
use urx.Adaptx.Records.{record_outcome-Moves}

abbrev pub held_of : List Phase → ℕ
held_of calls = count_if holds_permit calls

abbrev pub flying_of : List Phase → ℕ
flying_of calls = count_if is_in_flight calls

abbrev pub Inv : Callers → Type 0
Inv c = Holds c.limiter (held_of c.calls) (flying_of c.calls)

flying_held : (calls : List Phase) → flying_of calls ≤ held_of calls
flying_held [] = omega arith
flying_held (taken ∷ calls) = omega (arith, flying_held calls)
flying_held (working ∷ calls) = omega (arith, flying_held calls)
flying_held (recorded ∷ calls) = omega (arith, flying_held calls)
flying_held (leaving b ∷ calls) = omega (arith, flying_held calls)
flying_held (gone ∷ calls) = omega (arith, flying_held calls)

recount : (l : Limiter) {h h' f f' : ℕ} → h ≡ h' → f ≡ f' → Holds l h f → Holds l h' f'
recount l {h} {h'} {f} {f'} e d x = subst (λ n. Holds l n f') e (subst (λ n. Holds l h n) d x)

-- A step of one call: it goes from a phase to another, and for any number of the other calls the
-- limiter's step keeps the balance.
move-Inv :
    (c : Callers) (i : ℕ) (p q : Phase) (l : Limiter)
    → get_elem? c.calls i ≡ some p
    → ((held flying : ℕ)
        → flying ≤ held
        → Holds c.limiter
            ((if holds_permit p then 1 else 0) + held)
            ((if is_in_flight p then 1 else 0) + flying)
        → Holds l
            ((if holds_permit q then 1 else 0) + held)
            ((if is_in_flight q then 1 else 0) + flying))
    → Inv c
    → Holds l (held_of (set c.calls i q)) (flying_of (set c.calls i q))
move-Inv c i p q l f k v =
    let others = erase_idx c.calls i in
    let held = count_if-erase_idx holds_permit c.calls i p f in
    let flying = count_if-erase_idx is_in_flight c.calls i p f in
    let held' = count_if-write holds_permit c.calls i p q f in
    let flying' = count_if-write is_in_flight c.calls i p q f in
    recount l (omega (arith, held, held')) (omega (arith, flying, flying')) (
      k (held_of others) (flying_of others) (flying_held others)
        (recount c.limiter (omega (arith, held)) (omega (arith, flying)) v))

-- Counters alone change.
counted-Inv :
    (l : Limiter) (c : Callers) → SamePermits c.limiter l → Inv c → Inv (record c { limiter = l })
counted-Inv l c s i =
    recorded-Holds c.limiter l (held_of c.calls) (flying_of c.calls)
      (Moves-refl c.limiter l s i.balanced) i

with_permit-Inv :
    (c : Callers) (n : ℕ) → n ≡ c.limiter.sem → Inv c → Inv (with_permit (take_from n c.limiter) c)
with_permit-Inv c zero e v = counted-Inv (reject c.limiter) c (same_permits c.limiter) v
with_permit-Inv c (suc n) e v =
    taken-Holds c.limiter n (held_of c.calls) (flying_of c.calls) (sym e) v

entered-Inv :
    (c : Callers) (i : ℕ)
    → get_elem? c.calls i ≡ some taken
    → Inv c
    → Inv (entered i (finish_acquire c.limiter) c)
unfolding finish_acquire
entered-Inv c i f v =
    let l = c.limiter in
    if-cases (λ x. Inv (entered i x c)) l.is_shut (reject (return_permit l), false) (admit l, true)
      (λ e.
        move-Inv c i taken gone (reject (return_permit l)) f
          (λ held flying n h.
            let b = returned-Holds l held flying e n (recount l (omega arith) (omega arith) h) in
            let r = return_permit l in
            recount (reject r) (omega arith) (omega arith) (
              recorded-Holds r (reject r) held flying
                (Moves-refl r (reject r) (same_permits r) b.balanced) b))
          v)
      (λ e.
        move-Inv c i taken working (admit l) f
          (λ held flying n h. recount (admit l) (omega arith) (omega arith) (
            admitted-Holds l (suc held) flying (omega (arith, n))
              (recount l (omega arith) (omega arith) h)))
          v)

settled-Inv :
    (c : Callers) (i : ℕ) (x : Limiter × Option LimitChange)
    → get_elem? c.calls i ≡ some working
    → Moves c.limiter x.0
    → Inv c
    → Inv (settled i x c)
settled-Inv c i (l, none) f m v =
    move-Inv c i working recorded l f (λ held flying n h. recorded-Holds c.limiter l _ _ m h) v
settled-Inv c i (l, some change) f m v =
    move-Inv c i working recorded l f (λ held flying n h. recorded-Holds c.limiter l _ _ m h) v

enter_at-Inv :
    (c : Callers) (i : ℕ) (p : Option Phase)
    → get_elem? c.calls i ≡ p
    → Inv c
    → Inv (enter_at i p c)
unfolding enter_at
enter_at-Inv c i (some taken) f v = entered-Inv c i f v
enter_at-Inv c i (some working) f v = v
enter_at-Inv c i (some recorded) f v = v
enter_at-Inv c i (some (leaving b)) f v = v
enter_at-Inv c i (some gone) f v = v
enter_at-Inv c i none f v = v

settle_at-Inv :
    (c : Callers) (i now : ℕ) (draw : Draw) (ok : Bool) (latency : ℕ) (p : Option Phase)
    → get_elem? c.calls i ≡ p
    → Inv c
    → Inv (settle_at i now draw ok latency p c)
unfolding settle_at
settle_at-Inv c i now draw ok latency (some working) f v =
    settled-Inv c i (record_outcome now draw ok latency c.limiter) f
      (record_outcome-Moves now draw ok latency c.limiter v.balanced) v
settle_at-Inv c i now draw ok latency (some taken) f v = v
settle_at-Inv c i now draw ok latency (some recorded) f v = v
settle_at-Inv c i now draw ok latency (some (leaving b)) f v = v
settle_at-Inv c i now draw ok latency (some gone) f v = v
settle_at-Inv c i now draw ok latency none f v = v

count_down_at-Inv :
    (c : Callers) (i : ℕ) (p : Option Phase)
    → get_elem? c.calls i ≡ p
    → Inv c
    → Inv (count_down_at i p c)
unfolding count_down_at
count_down_at-Inv c i (some recorded) f v =
    let l = leave c.limiter in
    move-Inv c i recorded (leaving (l.in_flight == 0)) l f
      (λ held flying n h.
        recount l (omega arith) (omega arith) (
          left-Holds c.limiter (suc held) flying (recount c.limiter (omega arith) (omega arith) h)))
      v
count_down_at-Inv c i (some taken) f v = v
count_down_at-Inv c i (some working) f v = v
count_down_at-Inv c i (some (leaving b)) f v = v
count_down_at-Inv c i (some gone) f v = v
count_down_at-Inv c i none f v = v

give_back_at-Inv :
    (c : Callers) (i : ℕ) (p : Option Phase)
    → get_elem? c.calls i ≡ p
    → Inv c
    → Inv (give_back_at i p c)
unfolding give_back_at
give_back_at-Inv c i (some (leaving last)) f v =
    let l = finish_release last c.limiter in
    move-Inv c i (leaving last) gone l f
      (λ held flying n h. recount l (omega arith) (omega arith) (
        finished-Holds last c.limiter held flying n
          (recount c.limiter (omega arith) (omega arith) h)))
      v
give_back_at-Inv c i (some taken) f v = v
give_back_at-Inv c i (some working) f v = v
give_back_at-Inv c i (some recorded) f v = v
give_back_at-Inv c i (some gone) f v = v
give_back_at-Inv c i none f v = v

-- No call stands between the permit it took and its admission, or between its end and the permit
-- that it gives back, where the statistics are reset.
abbrev pub IsCalm : Event → Callers → Type 0
IsCalm (clear_stats now) c = held_of c.calls ≡ flying_of c.calls
IsCalm _ c = Unit

shut-Inv : (c : Callers) → Inv c → Inv (shut_with (begin_close c.limiter) c)
unfolding begin_close
shut-Inv c v =
    let l = c.limiter in
    let h = closed-Holds l true l.sem (held_of c.calls) (flying_of c.calls) refl (omega arith) v in
    if-intro (λ x. Inv (shut_with x c)) l.is_shut none
      (some (signal_drain_if_idle (record l { is_shut = true }))) v
      (signalled-Holds (record l { is_shut = true }) _ _ h)

drain-Inv : (c : Callers) → Inv c → Inv (step drain c)
unfolding step end_close
drain-Inv c v =
    let l = c.limiter in
    if-cases Inv l.is_shut (record c { limiter = (end_close l).0 }) c
      (λ e. closed-Holds l l.is_shut 0 (held_of c.calls) (flying_of c.calls) e (omega arith) v)
      (λ e. v)

pub step-Inv : (e : Event) (c : Callers) → IsCalm e c → Inv c → Inv (step e c)
unfolding step take_permit
step-Inv take c k v = with_permit-Inv c c.limiter.sem refl v
step-Inv turn_away c k v = counted-Inv (reject c.limiter) c (same_permits c.limiter) v
step-Inv (enter i) c k v = enter_at-Inv c i (get_elem? c.calls i) refl v
step-Inv (settle i now draw ok latency) c k v =
    settle_at-Inv c i now draw ok latency (get_elem? c.calls i) refl v
step-Inv (count_down i) c k v = count_down_at-Inv c i (get_elem? c.calls i) refl v
step-Inv (give_back i) c k v = give_back_at-Inv c i (get_elem? c.calls i) refl v
step-Inv shut c k v = shut-Inv c v
step-Inv drain c k v = drain-Inv c v
step-Inv (clear_stats now) c k v =
    reset-Holds now c.limiter (held_of c.calls) (flying_of c.calls) k v
