-- ===== src/Ratex/Rates.antt =====
-- ratex/ratex.go: how many tokens the limiter hands out over any stretch of time.
use urx.Base.{
  ℕ, ◌+◌, ◌-◌, ◌*◌, ◌≤◌, min, max, ◌≡◌, refl, ap, List, [], ◌∷◌, if◌then◌else◌, arith, Bool-cases,
  inl, inr, leb, All,
}
use urx.Base.Int.{ℤ}
use urx.Ratex.Bucket.{refill, take, allow_n, get_tokens, at_least_one}
use urx.Ratex.Refills.{IsValid, refilled, refill-refilled}
use urx.Ratex.Types.{Limiter, grain, capacity}

-- A check for a number of tokens, or a look at the balance, each with the clock's reading.
pub data Request : Type 0 where
  ask : ℕ → ℤ → Request
  look : ℕ → Request

-- One request: the limiter afterwards, and how many tokens were handed out.
unfoldable pub serve_one : Request → Limiter → Limiter × ℕ
unfolding allow_n get_tokens
serve_one (ask now n) l = let (l', ok) = allow_n now n l in (l', if ok then at_least_one n else 0)
serve_one (look now) l = ((get_tokens now l).0, 0)

unfoldable pub serve : List Request → Limiter → Limiter × ℕ
unfolding serve_one
serve [] l = (l, 0)
serve (r ∷ rs) l = let (l', n) = serve_one r l in let (l'', total) = serve rs l' in (l'', n + total)

-- The balance with what was spent is covered by the balance before and by the time since.
record Covered (l l' : Limiter) (granted : ℕ) : Type 0 where
  cfg : l'.cfg ≡ l.cfg
  forward : l.last_update ≤ l'.last_update
  paid :
      l'.tokens + granted * grain l.cfg + l.last_update * l.cfg.rate_num
      ≤ l.tokens + l'.last_update * l.cfg.rate_num
  valid : IsValid l'

elapsed : (now last r : ℕ) → (now - last) * r + last * r ≡ max now last * r
elapsed now last r =
    let e : (now - last) + last ≡ max now last = omega arith in
    omega (arith, ap (λ (k : ℕ). k * r) e)

refill-Covered : (now : ℕ) (l : Limiter) → IsValid l → Covered l (refill now l) 0
refill-Covered now l v = rw (refill-refilled now l v) (record {
  cfg = refl;
  forward = omega arith;
  paid = omega (arith, elapsed now l.last_update l.cfg.rate_num);
  valid = record { fills = v.fills; scaled = v.scaled; holds = v.holds; bounded = omega arith };
})

allow_n-Covered :
    (now : ℕ) (n : ℤ) (l : Limiter)
    → IsValid l
    → Covered l (allow_n now n l).0 (if (allow_n now n l).1 then at_least_one n else 0)
unfolding allow_n take
allow_n-Covered now n l v =
    let c = refill-Covered now l v in
    elim (Bool-cases (leb (at_least_one n * grain l.cfg) (refill now l).tokens)) [
      | inl e ↦ rw e (record {
        cfg = c.cfg;
        forward = c.forward;
        paid = ground (arith, c.paid);
        valid = record {
          fills = c.valid.fills;
          scaled = c.valid.scaled;
          holds = c.valid.holds;
          bounded = omega (arith, c.valid.bounded);
        };
      })
      | inr e ↦ rw e (record {
        cfg = c.cfg;
        forward = c.forward;
        paid = c.paid;
        valid = record {
          fills = c.valid.fills;
          scaled = c.valid.scaled;
          holds = c.valid.holds;
          bounded = c.valid.bounded;
        };
      })
    ]

serve_one-Covered :
    (r : Request) (l : Limiter) → IsValid l → Covered l (serve_one r l).0 (serve_one r l).1
unfolding serve_one
serve_one-Covered (ask now n) l v = allow_n-Covered now n l v
serve_one-Covered (look now) l v = refill-Covered now l v

trans-Covered :
    {l l' l'' : Limiter} {m n : ℕ} → Covered l l' m → Covered l' l'' n → Covered l l'' (m + n)
trans-Covered {l} {l'} {l''} c d = record {
  cfg = rw d.cfg c.cfg;
  forward = omega (arith, c.forward, d.forward);
  paid = omega (arith, c.paid, (rw c.cfg at d.paid));
  valid = d.valid;
}

serve-Covered :
    (rs : List Request) (l : Limiter) → IsValid l → Covered l (serve rs l).0 (serve rs l).1
unfolding serve
serve-Covered [] l v = record { cfg = refl; forward = omega arith; paid = omega arith; valid = v }
serve-Covered (r ∷ rs) l v =
    let c = serve_one-Covered r l v in trans-Covered c (serve-Covered rs (serve_one r l).0 c.valid)

abbrev pub reading : Request → ℕ
reading (ask now n) = now
reading (look now) = now

serve_one-last_update :
    (r : Request) (l : Limiter) (end : ℕ)
    → IsValid l
    → l.last_update ≤ end
    → reading r ≤ end
    → (serve_one r l).0.last_update ≤ end
unfolding serve_one allow_n take
serve_one-last_update (ask now n) l end v p q =
    rw (refill-refilled now l v)
      (elim (Bool-cases (leb (at_least_one n * grain l.cfg) (refilled now l).tokens)) [
        | inl e ↦ rw e (omega arith)
        | inr e ↦ rw e (omega arith)
      ])
serve_one-last_update (look now) l end v p q = rw (refill-refilled now l v) (omega arith)

serve-last_update :
    (rs : List Request) (l : Limiter) (end : ℕ)
    → IsValid l
    → l.last_update ≤ end
    → All (λ r. reading r ≤ end) rs
    → (serve rs l).0.last_update ≤ end
unfolding serve
serve-last_update [] l end v p q = p
serve-last_update (r ∷ rs) l end v p q =
    serve-last_update rs (serve_one r l).0 end (serve_one-Covered r l v).valid
      (serve_one-last_update r l end v p q.0) q.1

spread :
    (left spent last last' end tokens r : ℕ)
    → left + spent + last * r ≤ tokens + last' * r
    → last ≤ end
    → last' ≤ end
    → spent ≤ tokens + (end - last) * r
spread left spent last last' end tokens r h p q =
    let e : (end - last) + last ≡ end = omega arith in
    let f : last' + (end - last') ≡ end = omega arith in
    omega (arith, ap (λ (k : ℕ). k * r) e, ap (λ (k : ℕ). k * r) f)

-- The rate limit: over any sequence of checks and looks between the bucket's last update and the
-- time `end`, the tokens that are handed out are at most a full burst and what the configured rate
-- brings in that time; and at most the balance at the start and what the rate brings.
pub serve_rate_bound :
    (rs : List Request) (l : Limiter) (end : ℕ)
    → IsValid l
    → l.last_update ≤ end
    → All (λ r. reading r ≤ end) rs
    → let granted = (serve rs l).1 in
      let accrued = (end - l.last_update) * l.cfg.rate_num in
      (granted * grain l.cfg ≤ capacity l.cfg + accrued)
      × (granted * grain l.cfg ≤ l.tokens + accrued)
serve_rate_bound rs l end v p q =
    let c = serve-Covered rs l v in
    let upto = serve-last_update rs l end v p q in
    let bound : (serve rs l).1 * grain l.cfg ≤ l.tokens + (end - l.last_update) * l.cfg.rate_num =
      spread (serve rs l).0.tokens ((serve rs l).1 * grain l.cfg) l.last_update
        (serve rs l).0.last_update end l.tokens l.cfg.rate_num c.paid p upto in
    (omega (arith, bound, v.bounded), bound)

-- A check in one equation: it passes exactly if the balance that time has brought, which is at most
-- the capacity, covers it, and takes just that; else it takes nothing.
pub allow_n_lem :
    (now : ℕ) (n : ℤ) (l : Limiter)
    → IsValid l
    → let balance = min (capacity l.cfg) (l.tokens + (now - l.last_update) * l.cfg.rate_num) in
      let cost = at_least_one n * grain l.cfg in
      let (l', ok) = allow_n now n l in
      (ok ≡ leb cost balance) × (l'.tokens ≡ (if leb cost balance then balance - cost else balance))
unfolding allow_n take
allow_n_lem now n l v =
    rw (refill-refilled now l v)
      (elim (Bool-cases (leb (at_least_one n * grain l.cfg) (refilled now l).tokens)) [
        | inl e ↦ rw e (refl, refl)
        | inr e ↦ rw e (refl, refl)
      ])
