-- ===== src/Lrux/ShardExamples.antt =====
-- Runs of the sharded cache, and the theorems at concrete inputs: numbers as keys and values, each
-- key its own hash.
use urx.Base.{
  ℕ, ◌<◌, ◌≡◌, refl, Bool, true, false, none, some, List, [], ◌∷◌, arith, ◌==◌, length, get_elem?,
}
use urx.Base.Int.{pos}
use urx.Lrux.Types.{Cache}
use urx.Lrux.Cache
use urx.Lrux.Sweeps
use urx.Lrux.Ops
use urx.Lrux.Compute.{Clock, store, insert_locked}
use urx.Lrux.Parts.{counts_miss, stores, part_step}
use urx.Lrux.Bounds.{IsWithin}
use urx.Lrux.Nodes.{IsEquality}
use urx.Lrux.Config.{
  ShardedOption, with_shard_count, with_shard, with_capacity, new_sharded_config, next_pow2,
}
use urx.Lrux.Sharded.{Sharded, new, shard_index, get, len}
use urx.Lrux.Shards.{run-shard}
use urx.Lrux.ShardedOps.{
  ShardedOp, on_set, on_set_multi, on_delete_multi, on_close, on_resize, on_get_multi, on_part,
  on_range, step, run, shard_ops,
}
use urx.Lrux.Widths.{IsPowerOfTwo, run_sharded-IsWithin}

program : Unit {0}
unfolding new new_sharded_config next_pow2 step get len urx.Lrux.Cache.new urx.Lrux.Ops.step
    urx.Lrux.Cache.set_with_ttl urx.Lrux.Cache.get urx.Lrux.Sweeps.set_multi
    urx.Lrux.Sweeps.delete_multi urx.Lrux.Sweeps.close urx.Lrux.Cache.resize urx.Lrux.Sweeps.len
program = tt

abbrev same : ℕ → ℕ → Bool
same a b = a == b

same-IsEquality : IsEquality same
same-IsEquality = record { reflexive = λ a. ground arith; sound = λ a b h. ground (arith, h) }

abbrev hasher : ℕ → ℕ
hasher n = n

-- Four shards of one entry each.
abbrev opts : List ShardedOption
opts = with_shard_count (pos 3) ∷ with_shard (with_capacity (pos 1)) ∷ []

abbrev start : Sharded ℕ ℕ
start = new opts

-- The keys 5 and 9 meet in a shard, 6 has another.
abbrev ops : List (ShardedOp ℕ ℕ)
ops =
    on_set 1 5 50 (pos 0)
    ∷ on_set_multi (λ i. 2) ((6, 60) ∷ (9, 90) ∷ [])
    ∷ on_delete_multi (6 ∷ 7 ∷ [])
    ∷ []

abbrev at_3 : Clock
at_3 = record {
  checked = 3;
  promoted = 3;
  rechecked = 3;
  moved = 3;
  last_checked = 3;
  inserted = 3;
}

-- Batches of several keys for one shard, a computed value, and a walk over all shards.
abbrev more : List (ShardedOp ℕ ℕ)
more =
    on_set_multi (λ i. 3) ((13, 130) ∷ (6, 61) ∷ (17, 170) ∷ [])
    ∷ on_get_multi (λ i j. (3, 3)) (9 ∷ 17 ∷ 21 ∷ [])
    ∷ on_part 21 counts_miss
    ∷ on_part 21 (stores at_3 210 (pos 0))
    ∷ on_range (λ key value. true) (λ i j. 4)
    ∷ ops

computed_stays : (get hasher same 5 5 21 (run hasher same more start)).1 ≡ none
unfolding program part_step store insert_locked urx.Lrux.Sweeps.range urx.Lrux.Sweeps.get_multi
computed_stays = refl

newer_stays :
    let s = run hasher same ops start in
    ((get hasher same 3 3 9 s).1 ≡ some 90) × ((get hasher same 3 3 5 s).1 ≡ none) × (len s ≡ 1)
unfolding program
newer_stays = (refl, refl, refl)

closed_is_empty : len (run hasher same (on_close ∷ on_set 4 5 51 (pos 0) ∷ on_close ∷ []) start) ≡ 0
unfolding program
closed_is_empty = refl

start_shard : get_elem? start.shards 1 ≡ some (Cache.new (pos 1) (pos 0) false)
unfolding program
start_shard = refl

run-shard_example :
    get_elem? (run hasher same more start).shards 1
    ≡ some (Ops.run same (shard_ops hasher same 1 more start) (Cache.new (pos 1) (pos 0) false))
run-shard_example = run-shard hasher same more start 1 (Cache.new (pos 1) (pos 0) false) start_shard

run_sharded-IsWithin_example :
    let s = run hasher same (on_resize (pos 2) ∷ more) (new {K = ℕ} {V = ℕ} opts) in
    IsPowerOfTwo (length s.shards)
    × ((key : ℕ) → shard_index hasher s key < length s.shards)
    × ((i : ℕ) (c : Cache ℕ ℕ) → get_elem? s.shards i ≡ some c → IsWithin c)
run_sharded-IsWithin_example =
    run_sharded-IsWithin hasher same same-IsEquality (on_resize (pos 2) ∷ more) opts
