-- ===== src/Ratex/Refunds.antt =====
-- ratex/ratex.go: `Release` and `SkipToken` undo an admission.
use urx.Base.{
  ℕ, ◌+◌, ◌-◌, ◌*◌, ◌≤◌, ◌<◌, ◌≡◌, ap, sym, subst, String, Bool, true, false, Option, none, some,
  if◌then◌else◌, arith, Bool-cases, inl, inr, leb, u64_mod,
}
use urx.Base.Errors.{Error}
use urx.Base.Int.{ℤ}
use urx.Ratex.Bucket.{
  refill, take, allow_n, release, refund, count_allowed, count_limited, at_least_one,
}
use urx.Ratex.Execute.{Effect, try_execute, run}
use urx.Ratex.Refills.{IsValid, refill-IsValid}
use urx.Ratex.Types.{Limiter, Execution, grain}
use urx.Ratex.Waiting.{give_back, refill-allowed, refill-cfg}

-- `Release` with the tokens of an admission by `AllowN` undoes it: the limiter is as if it had only
-- been looked at. (Where the counter of admissions has not run up to its last value.)
pub release-allow_n :
    (now : ℕ) (n : ℤ) (l : Limiter)
    → IsValid l
    → l.allowed + 1 < u64_mod
    → (allow_n now n l).1 ≡ true
    → release (at_least_one n * grain l.cfg) (allow_n now n l).0 ≡ refill now l
unfolding allow_n take
release-allow_n now n l v a h =
    elim (Bool-cases (leb (at_least_one n * grain l.cfg) (refill now l).tokens)) [
      | inl e ↦ rw e (
          give_back (at_least_one n * grain l.cfg) (refill now l) (refill-IsValid now l v)
            (ground arith) (rw (refill-allowed now l v) a))
      | inr e ↦ absurd (ground arith)
    ]

run_skips {ℓ} :
    {A : Type ℓ} (zero_value : A) (op : String) (waited : Bool) (remaining : ℕ)
    (fn : Execution → Limiter → Effect A) (l : Limiter)
    → ((e : Execution) (x : Limiter) → ((fn e x).limiter ≡ x) × ((fn e x).skips ≡ true))
    → (run zero_value op waited remaining fn l).0 ≡ refund (grain l.cfg) l
unfolding run
run_skips zero_value op waited remaining fn l h = rw ((h _ l).0, (h _ l).1)

-- The limiter after an admission of one token, which giving it back undoes.
abbrev admitted : ℕ → Limiter → Limiter
admitted now l =
    count_allowed (record (refill now l) { tokens = (refill now l).tokens - grain l.cfg })

undone :
    (now : ℕ) (l : Limiter)
    → IsValid l
    → l.allowed + 1 < u64_mod
    → grain l.cfg ≤ (refill now l).tokens
    → refund (grain l.cfg) (admitted now l) ≡ refill now l
undone now l v a h =
    give_back (grain l.cfg) (refill now l) (refill-IsValid now l v) h
      (rw (refill-allowed now l v) a)

-- `TryExecute` of a callback that skips its token, and does not use the limiter itself: whether it
-- runs or not, no token is spent. If it runs, not even a counter shows it.
pub try_execute_skips {ℓ} :
    {A : Type ℓ} (zero_value : A) (now : ℕ) (after : Option Error)
    (fn : Execution → Limiter → Effect A) (l : Limiter)
    → IsValid l
    → l.allowed + 1 < u64_mod
    → ((e : Execution) (x : Limiter) → ((fn e x).limiter ≡ x) × ((fn e x).skips ≡ true))
    → let (l', ran, _, _) = try_execute zero_value now none after (some fn) l in
      l' ≡ (if ran then refill now l else count_limited (refill now l))
unfolding try_execute take
try_execute_skips zero_value now none fn l v a h =
    elim (Bool-cases (leb (grain l.cfg) (refill now l).tokens)) [
      | inl e ↦
          rw (e, run_skips zero_value "ratex.TryExecute" false _ fn (admitted now l) h)
            (subst (λ k. refund (grain k) (admitted now l) ≡ refill now l)
              (sym (refill-cfg now l v)) (undone now l v a (ground arith)))
      | inr e ↦ rw e
    ]
try_execute_skips zero_value now (some x) fn l v a h =
    elim (Bool-cases (leb (grain l.cfg) (refill now l).tokens)) [
      | inl e ↦ rw e (ap count_limited (undone now l v a (ground arith)))
      | inr e ↦ rw e
    ]
