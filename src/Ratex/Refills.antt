-- ===== src/Ratex/Refills.antt =====
-- ratex/ratex.go: how the balance grows with time.
use urx.Base.{ℕ, ◌+◌, ◌-◌, ◌*◌, ◌≤◌, ◌<◌, min, max, ◌≡◌, ap, sym, Bool-cases, inl, inr, leb, arith}
use urx.Ratex.Bucket.{refill}
use urx.Ratex.Types.{Limiter, capacity}

-- What `New` and every operation guarantee of a limiter.
pub record IsValid (l : Limiter) : Type 0 where
  pub fills : 0 < l.cfg.rate_num
  pub scaled : 0 < l.cfg.rate_den
  pub holds : 0 < l.cfg.burst
  pub bounded : l.tokens ≤ capacity l.cfg

mul_pos : (a b : ℕ) → 0 < a → 0 < b → 0 < a * b
mul_pos a b p q = grind arith

-- A refill in closed form.
abbrev pub refilled : ℕ → Limiter → Limiter
refilled now l = record l {
  tokens = min (capacity l.cfg) (l.tokens + (now - l.last_update) * l.cfg.rate_num);
  last_update = max now l.last_update;
}

late : (now : ℕ) (l : Limiter) → now ≤ l.last_update → IsValid l → refilled now l ≡ l
late now l h v =
    let e : now - l.last_update ≡ 0 = omega arith in
    let m : max now l.last_update ≡ l.last_update = omega arith in
    let t : min (capacity l.cfg) (l.tokens + (now - l.last_update) * l.cfg.rate_num) ≡ l.tokens =
      omega (arith, v.bounded, ap (λ (k : ℕ). k * l.cfg.rate_num) e) in
    λ i. record l { tokens = t i; last_update = m i }

pub refill-refilled : (now : ℕ) (l : Limiter) → IsValid l → refill now l ≡ refilled now l
unfolding refill
refill-refilled now l v = elim (Bool-cases (leb now l.last_update)) [
  | inl e ↦ rw e (sym (late now l (ground arith) v))
  | inr e ↦
      let m : max now l.last_update ≡ now = ground arith in
      rw (e, m)
        (ground (arith, mul_pos (now - l.last_update) l.cfg.rate_num (ground arith) v.fills))
]

pub refill-IsValid : (now : ℕ) (l : Limiter) → IsValid l → IsValid (refill now l)
refill-IsValid now l v =
    rw (refill-refilled now l v)
      (record { fills = v.fills; scaled = v.scaled; holds = v.holds; bounded = omega arith })

min_twice :
    (cap x a b c r : ℕ) → a + b ≡ c → min cap (min cap (x + a * r) + b * r) ≡ min cap (x + c * r)
min_twice cap x a b c r e = omega (arith, ap (λ (k : ℕ). k * r) e)

pub refill-refill : (t u : ℕ) (l : Limiter) → IsValid l → refill u (refill t l) ≡ refill (max t u) l
refill-refill t u l v = rw (refill-refilled u (refill t l) (refill-IsValid t l v)) (
    rw (refill-refilled t l v, refill-refilled (max t u) l v)
      (let last = l.last_update in
        let e : (t - last) + (u - max t last) ≡ max t u - last = omega arith in
        let m : max u (max t last) ≡ max (max t u) last = omega arith in
        λ i. record l {
          tokens =
              min_twice (capacity l.cfg) l.tokens (t - last) (u - max t last) (max t u - last)
                l.cfg.rate_num e i;
          last_update = m i;
        }))
