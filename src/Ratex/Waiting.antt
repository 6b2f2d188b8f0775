-- ===== src/Ratex/Waiting.antt =====
-- ratex/ratex.go: what a blocking call takes.
use urx.Base.{
  ℕ, ◌+◌, ◌-◌, ◌*◌, ◌≤◌, ◌<◌, max, ◌≡◌, refl, ap, sym, subst, if-intro, Bool, true, false, Option,
  none, some, List, [], ◌∷◌, arith, Bool-cases, Option-cases, inl, inr, leb, ltb, All, u64_mod,
}
use urx.Base.Errors.{Error}
use urx.Base.Int.{ℤ}
use urx.Ratex.Bucket.{refill, take, refund, count_limited, count_allowed, at_least_one}
use urx.Ratex.Refills.{IsValid, refill-refilled, refill-IsValid, refill-refill}
use urx.Ratex.Types.{Limiter, grain}
use urx.Ratex.Wait.{
  Round, Waited, waiting, acquired, refused, wait_loop, wait_for, delay, taken, sleep,
}

-- What is left of a limiter by a call that came to this end, where nobody else uses it: the balance
-- of some later time less what the call was given, and the outcome counted.
abbrev pub Left : ℕ → Limiter → Limiter × Waited → Type 0
Left need l (l', waiting) = (t : ℕ) × (l' ≡ refill t l)
Left need l (l', refused e) = (t : ℕ) × (l' ≡ count_limited (refill t l))
Left need l (l', acquired res) =
    (t : ℕ) × (need ≤ (refill t l).tokens)
    × (l' ≡ count_allowed (record (refill t l) { tokens = (refill t l).tokens - need }))
    × (res.remaining ≡ (refill t l).tokens - need)

-- Nobody else uses the limiter while this call sleeps.
abbrev pub Quiet : Round → Type 0
Quiet r = (l : Limiter) → r.others l ≡ l

-- A limiter that was taken from and given back.
pub give_back :
    (need : ℕ) (l : Limiter)
    → IsValid l
    → need ≤ l.tokens
    → l.allowed + 1 < u64_mod
    → refund need (count_allowed (record l { tokens = l.tokens - need })) ≡ l
unfolding refund
give_back need l v h a = ground (arith, v.bounded)

pub refill-allowed : (t : ℕ) (l : Limiter) → IsValid l → (refill t l).allowed ≡ l.allowed
refill-allowed t l v = rw (refill-refilled t l v)

pub refill-cfg : (t : ℕ) (l : Limiter) → IsValid l → (refill t l).cfg ≡ l.cfg
refill-cfg t l v = rw (refill-refilled t l v)

module _ (need : ℕ) (l : Limiter) (v : IsValid l) (small : l.allowed + 1 < u64_mod) where
  taken-Left :
      (t : ℕ) (waited : Bool) (after : Option Error)
      → need ≤ (refill t l).tokens
      → Left need l (
          taken after need
            (record { remaining = (refill t l).tokens - need; waited = waited })
            (count_allowed (record (refill t l) { tokens = (refill t l).tokens - need })))
  taken-Left t waited none h = (t, h, refl, refl)
  taken-Left t waited (some e) h = (
    t,
    ap count_limited
        (give_back need (refill t l) (refill-IsValid t l v) h (rw (refill-allowed t l v) small)),
  )

  sleep-Left :
      (t : ℕ) (wake : Option Error) (again : Limiter × Waited)
      → Left need l again
      → Left need l (sleep wake again (refill t l))
  sleep-Left t none again h = h
  sleep-Left t (some e) again h = (t, refl)

  wait_loop-Left :
      (rs : List Round) (t : ℕ) (waited : Bool)
      → All Quiet rs
      → Left need l (wait_loop need waited rs (refill t l))
  unfolding wait_loop take delay
  wait_loop-Left [] t waited q = (t, refl)
  wait_loop-Left (r ∷ rs) t waited q = elim (Option-cases r.before) [
    | inr (e, c) ↦ rw (c, wait_loop) (t, refl)
    | inl c ↦
        rw (c, wait_loop)
          (rw (refill-refill t r.take_at l v)
            (elim (Bool-cases (leb need (refill (max t r.take_at) l).tokens)) [
              | inl ok ↦ rw ok (taken-Left (max t r.take_at) waited r.after (ground arith))
              | inr short ↦
                  rw (short, q.0, refill-refill (max t r.take_at) r.delay_at l v)
                    (sleep-Left (max (max t r.take_at) r.delay_at) r.wake _
                      (wait_loop-Left rs (max (max t r.take_at) r.delay_at) true q.1))
            ]))
  ]

pub refill-zero : (l : Limiter) → refill 0 l ≡ l
unfolding refill
refill-zero l = ground arith

-- A blocking call in all its ends, where nobody else uses the limiter meanwhile: it takes the tokens
-- it needs only if it comes back admitted, and then exactly those, from a balance that covers them.
-- A call that is refused, because the request is larger than the burst or the context is done, even
-- after tokens were taken, leaves the balance as time alone would, and is counted once as limited.
pub wait_for_takes :
    (rs : List Round) (n : ℤ) (l : Limiter)
    → IsValid l
    → l.allowed + 1 < u64_mod
    → All Quiet rs
    → Left (at_least_one n * grain l.cfg) l (wait_for rs n l)
unfolding wait_for
wait_for_takes rs n l v small q =
    let start : refill 0 l ≡ l = refill-zero l in
    if-intro (Left (at_least_one n * grain l.cfg) l) (ltb l.cfg.burst (at_least_one n)) _ _
      (0, ap count_limited (sym start))
      (subst
        (λ x.
          Left (at_least_one n * grain l.cfg) l
            (wait_loop (at_least_one n * grain l.cfg) false rs x))
        start (wait_loop-Left (at_least_one n * grain l.cfg) l v small rs 0 false q))
