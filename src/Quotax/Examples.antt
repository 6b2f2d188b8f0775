-- ===== src/Quotax/Examples.antt =====
-- Runs of the quota, and the theorems at concrete inputs: numbers as keys, each its own hash.
use urx.Base.{
  ℕ, ◌≤◌, ◌≡◌, ◌⊎◌, refl, true, false, Option, none, some, List, [], ◌∷◌, arith, length, ◌==◌,
  IsEquality,
}
use urx.Base.Int.{pos}
use urx.Ratex.Bucket
use urx.Ratex.Config
use urx.Quotax.Config.{QuotaOption, quota_rate, quota_burst, with_shards, with_max_keys, new_config}
use urx.Quotax.Table.{find}
use urx.Quotax.Quota.{Quota, new, quota_allow_n}
use urx.Quotax.Ops.{QuotaOp, op_allow, op_pin, op_unpin, op_remove, op_reset, op_evict, step, run}
use urx.Quotax.Keys.{run-keys}
use urx.Quotax.Resets.{overtaken, reset_overtakes_keys}
use urx.Quotax.Isolation.{Request, limiter_of, serve, answers_of, solo, serve-solo}

program : Unit {0}
unfolding new new_config step quota_allow_n serve urx.Ratex.Bucket.allow_n urx.Ratex.Bucket.take
    urx.Ratex.Bucket.new urx.Ratex.Config.new_config urx.Ratex.Bucket.refill
program = tt

-- One token for a key, and at most two keys in three shards.
abbrev opts : List (Option QuotaOption)
opts =
    some (quota_rate (pos 1) 0)
    ∷ some (quota_burst (pos 1))
    ∷ some (with_shards (pos 3))
    ∷ some (with_max_keys (pos 2))
    ∷ none
    ∷ []

abbrev start : Quota ℕ
start = new opts

abbrev hash : ℕ → ℕ
hash n = n

-- A third key is refused; the pinned key outlives the reset, and the eviction takes the idle one.
abbrev ops : List (QuotaOp ℕ)
ops =
    op_allow 0 (pos 1) 7
    ∷ op_pin 0 8
    ∷ op_allow 0 (pos 1) 9
    ∷ op_reset
    ∷ op_allow 1 (pos 1) 9
    ∷ op_evict 900_000_000_002
    ∷ op_unpin 8
    ∷ op_remove 5
    ∷ []

ops_keys : ((run ◌==◌ hash ops start).key_count ≡ 1) × ((run ◌==◌ hash ops start).limited ≡ 1)
unfolding program
ops_keys = (refl, refl)

run-keys_example :
    let q = run ◌==◌ hash ops (new opts) in
    (q.key_count ≡ length q.entries) × ((q.cfg.max_keys ≡ 0) ⊎ (length q.entries ≤ q.cfg.max_keys))
run-keys_example = run-keys ◌==◌ hash ops opts

abbrev one_key : Quota ℕ
one_key = new (some (with_max_keys (pos 1)) ∷ [])

one_key_max : one_key.cfg.max_keys ≡ 1
unfolding program
one_key_max = refl

reset_overtakes_keys_example :
    let q' = overtaken ◌==◌ hash 5 1 2 (record one_key { entries = []; key_count = 0 }) in
    (length q'.entries ≡ 2) × (q'.key_count ≡ 1)
reset_overtakes_keys_example = reset_overtakes_keys ◌==◌ hash 5 1 2 one_key one_key_max refl

numbers-IsEquality : IsEquality ◌==◌
numbers-IsEquality = record { reflexive = λ a. ground arith; sound = λ a b h. ground (arith, h) }

abbrev unlimited : Quota ℕ
unlimited = new (some (quota_burst (pos 1)) ∷ [])

unlimited_open : (unlimited.cfg.max_keys ≡ 0) × (unlimited.is_shut ≡ false)
unfolding program
unlimited_open = (refl, refl)

-- Two requests of the key 1 with one of the key 2 in between.
abbrev requests : List (Request ℕ)
requests =
    record { now = 0; n = pos 1; key = 1 }
    ∷ record { now = 0; n = pos 1; key = 2 }
    ∷ record { now = 0; n = pos 1; key = 1 }
    ∷ []

requests_answers : answers_of ◌==◌ 1 requests (serve ◌==◌ requests unlimited).1 ≡ true ∷ false ∷ []
unfolding program
requests_answers = refl

serve-solo_example :
    answers_of ◌==◌ 1 requests (serve ◌==◌ requests unlimited).1
    ≡ solo ◌==◌ unlimited.cfg 1 requests (limiter_of (find ◌==◌ 1 unlimited.entries))
serve-solo_example =
    serve-solo ◌==◌ numbers-IsEquality requests 1 unlimited unlimited_open.0 unlimited_open.1
