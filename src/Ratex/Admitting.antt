-- ===== src/Ratex/Admitting.antt =====
-- ratex/ratex.go: when a blocking call comes back.
use urx.Base.{
  ℕ, ◌+◌, ◌-◌, ◌*◌, ◌/◌, ◌≤◌, ◌<◌, min, max, ◌≡◌, ap, subst, Bool, true, false, none, List, [], ◌∷◌,
  arith, Bool-cases, inl, inr, ge→ltb, le→leb, leb, All,
}
use urx.Base.Int.{ℤ}
use native.Mathlib.Nat.{div-add-mod', mod-lt}
use urx.Ratex.Bucket.{refill, take, at_least_one}
use urx.Ratex.Refills.{IsValid, refill-refilled, refill-refill}
use urx.Ratex.Types.{Limiter, grain, capacity}
use urx.Ratex.Wait.{Round, Waited, acquired, wait_loop, wait_for, delay, min_delay}
use urx.Ratex.Waiting.{Quiet, refill-zero, refill-cfg}

mul_mono : (a b r : ℕ) → a ≤ b → a * r ≤ b * r
mul_mono a b r h = grind arith

over_div : (d r gap : ℕ) → 0 < r → d / r + 1 ≤ gap → d ≤ gap * r
over_div d r gap p h = omega (arith, div-add-mod' d r, mod-lt d p, mul_mono (d / r + 1) gap r h)

covers :
    (x r cap need before gap whole : ℕ)
    → 0 < r
    → need ≤ cap
    → before + gap ≤ whole
    → (need - min cap (x + before * r)) / r + 1 ≤ gap
    → need ≤ min cap (x + whole * r)
covers x r cap need before gap whole p c w h =
    omega (
      arith,
      over_div (need - min cap (x + before * r)) r gap p h,
      mul_mono (before + gap) whole r w,
    )

-- Time enough for what is missing, counted in whole nanoseconds and one more.
refill_covers :
    (t u need : ℕ) (l : Limiter)
    → IsValid l
    → need ≤ capacity l.cfg
    → l.last_update ≤ t
    → t + (need - (refill t l).tokens) / l.cfg.rate_num + 1 ≤ u
    → need ≤ (refill u l).tokens
refill_covers t u need l v c p q =
    let e = ap (λ (x : Limiter). x.tokens) (refill-refilled t l v) in
    rw (refill-refilled u l v) (
      covers l.tokens l.cfg.rate_num (capacity l.cfg) need (t - l.last_update) (u - t)
        (u - l.last_update) v.fills c (omega arith)
        (subst (λ (x : ℕ). (need - x) / l.cfg.rate_num + 1 ≤ u - t) e (omega arith)))

-- The context stays live in a round.
abbrev pub Live : Round → Type 0
Live r = (r.before ≡ none) × (r.after ≡ none) × (r.wake ≡ none)

abbrev pub IsAcquired : Waited → Type 0
IsAcquired (acquired res) = Unit
IsAcquired _ = ⊥

module _ (need : ℕ) (l : Limiter) (v : IsValid l) (r : Round) (rs : List Round) (waited : Bool)
    (quiet : Quiet r) (live : Live r) (t : ℕ) where
  round_passes :
      need ≤ (refill (max t r.take_at) l).tokens
      → IsAcquired (wait_loop need waited (r ∷ rs) (refill t l)).1
  unfolding wait_loop take
  round_passes h =
      rw (live.0, wait_loop) (rw (refill-refill t r.take_at l v, le→leb _ _ h, live.1) tt)

  round_fails :
      (u : ℕ)
      → leb need (refill (max t r.take_at) l).tokens ≡ false
      → max (max t r.take_at) r.delay_at ≡ u
      → wait_loop need waited (r ∷ rs) (refill t l) ≡ wait_loop need true rs (refill u l)
  unfolding wait_loop take delay
  round_fails u h e =
      rw (live.0, wait_loop)
        (rw (
          refill-refill t r.take_at l v,
          h,
          quiet,
          refill-refill (max t r.take_at) r.delay_at l v,
          live.2,
          e,
        ))

le-delay :
    (now need : ℕ) (l : Limiter)
    → IsValid l
    → (need - (refill now l).tokens) / l.cfg.rate_num ≤ (delay now need l).1
unfolding delay
le-delay now need l v =
    rw (refill-cfg now l v) (elim (Bool-cases (leb need (refill now l).tokens)) [
      | inl e ↦ let z : need - (refill now l).tokens ≡ 0 = ground arith in rw (e, z) (omega arith)
      | inr e ↦ rw e (ground arith)
    ])

third_try :
    (need : ℕ) (l : Limiter)
    → IsValid l
    → need ≤ capacity l.cfg
    → (r₁ r₂ r₃ : Round) (rs : List Round) → All Quiet (r₁ ∷ r₂ ∷ r₃ ∷ [])
    → All Live (r₁ ∷ r₂ ∷ r₃ ∷ [])
    → (l.last_update ≤ r₁.take_at) × (r₁.take_at ≤ r₁.delay_at) × (r₂.take_at ≤ r₂.delay_at)
    → r₁.delay_at + (delay r₁.delay_at need l).1 ≤ r₂.take_at
    → r₂.delay_at + min_delay ≤ r₃.take_at
    → IsAcquired (wait_loop need false (r₁ ∷ r₂ ∷ r₃ ∷ rs) l).1
third_try need l v c r₁ r₂ r₃ rs q live clock s₁ s₂ =
    subst (λ x. IsAcquired (wait_loop need false (r₁ ∷ r₂ ∷ r₃ ∷ rs) x).1) (refill-zero l)
      (elim (Bool-cases (leb need (refill (max 0 r₁.take_at) l).tokens)) [
        | inl ok ↦ round_passes need l v r₁ _ false q.0 live.0 0 (ground arith)
        | inr short ↦
            rw (round_fails need l v r₁ _ false q.0 live.0 0 r₁.delay_at short (omega arith))
              (elim (Bool-cases (leb need (refill (max r₁.delay_at r₂.take_at) l).tokens)) [
                | inl ok ↦ round_passes need l v r₂ _ true q.1.0 live.1.0 r₁.delay_at (ground arith)
                | inr short' ↦
                    rw
                      (round_fails need l v r₂ _ true q.1.0 live.1.0 r₁.delay_at r₂.delay_at short'
                        (omega arith))
                      (round_passes need l v r₃ rs true q.1.1.0 live.1.1.0 r₂.delay_at (
                        refill_covers r₁.delay_at (max r₂.delay_at r₃.take_at) need l v c
                          (omega arith) (omega (arith, le-delay r₁.delay_at need l v))))
              ])
      ])

-- A call that can be granted is: where nobody else uses the limiter, the context stays live, the
-- clock does not run back and no sleep is shorter than it was set to, the third try succeeds at the
-- latest. (The second may fail by a rounding, since the delay is cut to whole nanoseconds.)
pub wait_for_ends :
    (r₁ r₂ r₃ : Round) (rs : List Round) (n : ℤ) (l : Limiter)
    → IsValid l
    → at_least_one n ≤ l.cfg.burst
    → All Quiet (r₁ ∷ r₂ ∷ r₃ ∷ [])
    → All Live (r₁ ∷ r₂ ∷ r₃ ∷ [])
    → (l.last_update ≤ r₁.take_at) × (r₁.take_at ≤ r₁.delay_at) × (r₂.take_at ≤ r₂.delay_at)
    → r₁.delay_at + (delay r₁.delay_at (at_least_one n * grain l.cfg) l).1 ≤ r₂.take_at
    → r₂.delay_at + min_delay ≤ r₃.take_at
    → IsAcquired (wait_for (r₁ ∷ r₂ ∷ r₃ ∷ rs) n l).1
unfolding wait_for
wait_for_ends r₁ r₂ r₃ rs n l v b q live clock s₁ s₂ = rw (ge→ltb _ _ b) (
    third_try (at_least_one n * grain l.cfg) l v
      (mul_mono (at_least_one n) l.cfg.burst (grain l.cfg) b) r₁ r₂ r₃ rs q live clock s₁ s₂)
