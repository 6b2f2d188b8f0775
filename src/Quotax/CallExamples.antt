-- ===== src/Quotax/CallExamples.antt =====
-- Runs of the blocking calls of the quota, and the theorems on pins at concrete inputs: numbers as
-- keys, each its own hash.
use urx.Base.{
  ℕ, ◌≡◌, ◌<◌, Bool, refl, true, false, none, some, List, [], ◌∷◌, arith, ◌==◌, IsEquality,
}
use urx.Base.Errors.{canceled, sentinel, quotax, closed}
use urx.Base.Int.{pos}
use urx.Ratex.Bucket
use urx.Ratex.Config
use urx.Ratex.Wait
use urx.Ratex.Execute.{done}
use urx.Panix.Recover.{returns, safe}
use urx.Quotax.Config.{quota_rate, quota_burst, with_shards, new_config}
use urx.Quotax.Table.{Bucket, find}
use urx.Quotax.Quota.{Quota, new, quota_allow_n, bucket_for_wait, new_bucket}
use urx.Quotax.Ops.{QuotaOp, op_allow, op_remove, op_reset, op_evict, op_close, step, run}
use urx.Quotax.Pins.{follow, StaysPinned, run-follow}
use urx.Quotax.Waits.{
  Round, by_timer, admitted, turned_away, wait_for, allow_or_error, err_cancelled,
}
use urx.Quotax.Execute.{Execution, Effect, execute, try_execute}
use urx.Quotax.Balance.{pins_at, Leaves, Fair, follow-KeepsPins}
use urx.Quotax.Returns.{wait_for-pins}

program : Unit {0}
unfolding new new_config step quota_allow_n bucket_for_wait wait_for allow_or_error execute
    try_execute urx.Ratex.Bucket.allow_n urx.Ratex.Bucket.take urx.Ratex.Bucket.new
    urx.Ratex.Config.new_config urx.Ratex.Bucket.refill urx.Ratex.Bucket.get_tokens
    urx.Ratex.Bucket.refund urx.Ratex.Wait.delay safe
program = tt

-- One token a second for a key, in three shards.
abbrev start : Quota ℕ
start =
    new (some (quota_rate (pos 1) 0) ∷ some (quota_burst (pos 1)) ∷ some (with_shards (pos 3)) ∷ [])

abbrev hash : ℕ → ℕ
hash n = n

abbrev second : ℕ
second = 1_000_000_000

abbrev others : List (QuotaOp ℕ)
others =
    op_reset
    ∷ op_remove 7
    ∷ op_allow 5 (pos 1) 8
    ∷ op_allow 5 (pos 1) 7
    ∷ op_evict 1_000_000_000_000
    ∷ []

-- A sleep while others work, and a second look a second later.
abbrev rounds : List (Round ℕ)
rounds =
    record {
      before = none;
      take_at = 1;
      after = none;
      read_at = 2;
      others = others;
      wake = by_timer none;
    }
    ∷ record {
      before = none;
      take_at = second;
      after = none;
      read_at = second;
      others = [];
      wake = by_timer none;
    }
    ∷ []

abbrev emptied : Quota ℕ
emptied = (quota_allow_n ◌==◌ 0 (pos 1) 7 start).0

wait_admits : (wait_for ◌==◌ hash 1 (pos 1) none none 7 rounds emptied).1 ≡ admitted 0 true
unfolding program
wait_admits = refl

wait_cancelled :
    (wait_for ◌==◌ hash 1 (pos 1) (some canceled) none 7 rounds emptied).1
    ≡ turned_away (err_cancelled canceled)
unfolding program
wait_cancelled = refl

abbrev shut : Quota ℕ
shut = step ◌==◌ hash op_close start

shut_answers :
    ((allow_or_error ◌==◌ 0 7 shut).1 ≡ some (sentinel quotax closed))
    × ((allow_or_error ◌==◌ 0 7 start).1 ≡ none)
unfolding program
shut_answers = (refl, refl)

-- A callback that gives its token back.
abbrev skipping : Execution ℕ → Quota ℕ → Effect ℕ ℕ
skipping e q = record { quota = q; skips = true; outcome = returns e.tokens none }

execute_skips :
    let x = execute ◌==◌ 99 hash 1 2 none none 7 rounds (some skipping) start in
    (x.1 ≡ done 1 none) × (x.0.allowed ≡ 0) × (pins_at ◌==◌ 7 x.0 ≡ 0)
unfolding program
execute_skips = (refl, refl, refl)

try_execute_empty :
    let (q, ran, val, err) = try_execute ◌==◌ 99 hash 1 none none 7 (some skipping) emptied in
    (ran ≡ false) × (val ≡ 99) × (q.limited ≡ 1)
unfolding program
try_execute_empty = (refl, refl, refl)

numbers-IsEquality : IsEquality ◌==◌
numbers-IsEquality = record { reflexive = λ a. ground arith; sound = λ a b h. ground (arith, h) }

others-StaysPinned :
    (b : Bucket) (s : Bool)
    → 0 < b.pins
    → StaysPinned ◌==◌ 7 others s b × ((follow ◌==◌ 7 others s b).pins ≡ b.pins)
others-StaysPinned b true p = ((p, (p, (p, (p, (p, tt))))), refl)
others-StaysPinned b false p = ((p, (p, (p, (p, (p, tt))))), refl)

rounds-Fair : Fair ◌==◌ hash 7 (record {
  before = none;
  take_at = 1;
  after = none;
  read_at = 2;
  others = others;
  wake = by_timer none;
})
rounds-Fair = follow-KeepsPins ◌==◌ numbers-IsEquality hash 7 others others-StaysPinned

wait_for-pins_example :
    Leaves ◌==◌ 7 (pins_at ◌==◌ 7 emptied) (wait_for ◌==◌ hash 1 (pos 1) none none 7 rounds emptied)
wait_for-pins_example =
    wait_for-pins ◌==◌ numbers-IsEquality hash 7 1 (pos 1) none none rounds emptied
      (rounds-Fair, (λ q p. refl, tt))

abbrev held : Quota ℕ
held = (bucket_for_wait ◌==◌ 0 7 start).0

held_found : find ◌==◌ 7 held.entries ≡ some (new_bucket 0 1 start.cfg)
unfolding program
held_found = refl

held-StaysPinned : StaysPinned ◌==◌ 7 others held.is_shut (new_bucket 0 1 start.cfg)
held-StaysPinned = (others-StaysPinned (new_bucket 0 1 start.cfg) held.is_shut (omega arith)).0

run-follow_example :
    find ◌==◌ 7 (run ◌==◌ hash others held).entries
    ≡ some (follow ◌==◌ 7 others held.is_shut (new_bucket 0 1 start.cfg))
run-follow_example =
    run-follow ◌==◌ numbers-IsEquality hash 7 others (new_bucket 0 1 start.cfg) held held_found
      held-StaysPinned
