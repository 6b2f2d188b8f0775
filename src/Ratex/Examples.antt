-- ===== src/Ratex/Examples.antt =====
-- Runs of the rate limiter, and the theorems at concrete inputs: ten requests a second, a burst of two.
use urx.Base.{ℕ, ◌+◌, ◌*◌, ◌≤◌, ◌≡◌, refl, true, Option, none, some, List, [], ◌∷◌, arith}
use urx.Base.Int.{pos, negsuc}
use urx.Panix.Recover.{returns}
use urx.Ratex.Bucket.{new, refill, take, allow_n, release, refund}
use urx.Ratex.Config.{LimiterOption, with_rate, with_burst, new_config}
use urx.Ratex.Execute.{Effect, try_execute, run}
use urx.Ratex.Rates.{Request, ask, look, serve, serve_rate_bound}
use urx.Ratex.Refills.{IsValid}
use urx.Ratex.Refunds.{release-allow_n}
use urx.Ratex.Types.{Limiter, Execution}
use urx.Ratex.Wait.{Round, wait_for, delay}
use urx.Ratex.Waiting.{Left, wait_for_takes}
use urx.Ratex.Admitting.{IsAcquired, wait_for_ends}

program : Unit {0}
unfolding new new_config refill take allow_n refund serve wait_for try_execute run
program = tt

abbrev opts : List (Option LimiterOption)
opts = some (with_burst (pos 2)) ∷ none ∷ some (with_rate (negsuc 3) 0) ∷ []

abbrev full : Limiter
full = record {
  cfg = record { rate_num = 10; rate_den = 1; burst = 2 };
  tokens = 2_000_000_000;
  last_update = 0;
  allowed = 0;
  limited = 0;
}

new_is_full : new 0 opts ≡ full
unfolding program
new_is_full = refl

abbrev empty : Limiter
empty = record full { tokens = 0 }

full-IsValid : IsValid full
full-IsValid = omega arith

empty-IsValid : IsValid empty
empty-IsValid = omega arith

-- Three at once, of which the third is refused, and one a tenth of a second later.
abbrev requests : List Request
requests =
    ask 0 (pos 1)
    ∷ ask 0 (pos 0)
    ∷ look 50_000_000
    ∷ ask 60_000_000 (pos 1)
    ∷ ask 100_000_000 (pos 1)
    ∷ []

requests_served : (serve requests full).1 ≡ 3
unfolding program
requests_served = refl

serve_rate_bound_example :
    let granted = (serve requests full).1 in
    (granted * 1_000_000_000 ≤ 2_000_000_000 + 1_000_000_000)
    × (granted * 1_000_000_000 ≤ 2_000_000_000 + 1_000_000_000)
serve_rate_bound_example =
    serve_rate_bound requests full 100_000_000 full-IsValid (omega arith) (omega arith)

abbrev round : ℕ → ℕ → Round
round t d = record {
  before = none;
  take_at = t;
  after = none;
  delay_at = d;
  others = λ l. l;
  wake = none;
}

abbrev rounds : List Round
rounds = round 1 1 ∷ round 100_000_001 100_000_002 ∷ round 200_000_000 200_000_000 ∷ []

wait_for_takes_example : Left 1_000_000_000 empty (wait_for rounds (pos 1) empty)
wait_for_takes_example =
    wait_for_takes rounds (pos 1) empty empty-IsValid (omega arith)
      (λ l. refl, (λ l. refl, (λ l. refl, tt)))

wait_for_ends_example : IsAcquired (wait_for rounds (pos 1) empty).1
unfolding delay refill
wait_for_ends_example =
    wait_for_ends (round 1 1) (round 100_000_001 100_000_002) (round 200_000_000 200_000_000) []
      (pos 1) empty empty-IsValid (omega arith) (λ l. refl, (λ l. refl, (λ l. refl, tt)))
      ((refl, refl, refl), ((refl, refl, refl), ((refl, refl, refl), tt))) (omega arith)
      (omega arith) (omega arith)

release-allow_n_example : release 1_000_000_000 (allow_n 3 (pos 1) full).0 ≡ refill 3 full
unfolding program
release-allow_n_example = release-allow_n 3 (pos 1) full full-IsValid (omega arith) refl

abbrev skipping : Execution → Limiter → Effect ℕ
skipping e l = record { limiter = l; skips = true; outcome = returns 7 none }
