-- ===== src/Lrux/Config.antt =====
-- lrux/options.go, and the constructors that read the options (lrux/lrux.go, lrux/sharded.go). Of a
-- callback the configuration says whether there is one. Durations are in nanoseconds.
use urx.Base.{ℕ, zero, suc, ◌*◌, Bool, true, false, List, [], ◌∷◌, if◌then◌else◌, ltb, min}
use urx.Base.Int.{ℤ, pos, pos_part, set_if_pos}
use urx.Lrux.Types.{Cache}
use urx.Lrux.Cache.{new}

pub record Config : Type 0 where
  pub capacity : ℕ
  pub ttl : ℕ
  pub on_evict : Bool
  pub cleanup_interval : ℕ

pub data CacheOption : Type 0 where
  with_capacity with_ttl with_cleanup_interval : ℤ → CacheOption
  with_on_evict : Bool → CacheOption

unfoldable pub apply : CacheOption → Config → Config
apply (with_capacity n) c = record c { capacity = pos_part n }
apply (with_ttl d) c = record c { ttl = pos_part d }
apply (with_on_evict fn) c = record c { on_evict = fn }
apply (with_cleanup_interval d) c = record c { cleanup_interval = set_if_pos d c.cleanup_interval }

abbrev pub apply_all : List CacheOption → Config → Config
apply_all [] c = c
apply_all (opt ∷ opts) c = apply_all opts (apply opt c)

unfoldable pub new_config : List CacheOption → Config
unfolding apply
new_config opts =
    apply_all opts (record { capacity = 0; ttl = 0; on_evict = false; cleanup_interval = 0 })

-- `New`; the sweeper that it may start is a goroutine that calls `ExpireOld`.
unfoldable pub new_cache {ℓ κ} : {K : Type ℓ} {V : Type κ} → List CacheOption → Cache K V
unfolding new_config new
new_cache opts = let cfg = new_config opts in new (pos cfg.capacity) (pos cfg.ttl) cfg.on_evict

-- `shardedConfig`: how many shards, and the configuration of each.
pub record ShardedConfig : Type 0 where
  pub shard_count : ℕ
  pub each : Config

pub data ShardedOption : Type 0 where
  with_shard_count : ℤ → ShardedOption
  with_shard : CacheOption → ShardedOption

abbrev pub max_shard_count : ℕ
max_shard_count = 4096

-- `WithShardCount`, and the options that are those of `New` for every shard.
unfoldable pub apply_sharded : ShardedOption → ShardedConfig → ShardedConfig
unfolding apply
apply_sharded (with_shard_count (pos (suc n))) c = record c {
  shard_count = min (suc n) max_shard_count;
}
apply_sharded (with_shard_count _) c = c
apply_sharded (with_shard opt) c = record c { each = apply opt c.each }

abbrev pub apply_all_sharded : List ShardedOption → ShardedConfig → ShardedConfig
apply_all_sharded [] c = c
apply_all_sharded (opt ∷ opts) c = apply_all_sharded opts (apply_sharded opt c)

unfoldable pub new_sharded_config : List ShardedOption → ShardedConfig
unfolding apply_sharded new_config
new_sharded_config opts = apply_all_sharded opts (record { shard_count = 16; each = new_config [] })

-- The loop of `nextPow2`, with fuel.
abbrev pub double_up : ℕ → ℕ → ℕ → ℕ
double_up zero count n = count
double_up (suc fuel) count n =
    let more = double_up fuel (2 * count) n in if ltb count n then more else count

unfoldable pub next_pow2 : ℕ → ℕ
next_pow2 n = double_up n 1 n

pub record ComputeConfig : Type 0 where
  pub ttl : ℕ
  pub singleflight : Bool

pub data ComputeOption : Type 0 where
  with_compute_ttl : ℤ → ComputeOption
  with_singleflight : ComputeOption

abbrev pub compute_config : List ComputeOption → ComputeConfig → ComputeConfig
compute_config [] c = c
compute_config (with_compute_ttl d ∷ opts) c = compute_config opts (record c { ttl = pos_part d })
compute_config (with_singleflight ∷ opts) c = compute_config opts (record c { singleflight = true })
