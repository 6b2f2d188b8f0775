-- ===== src/Lrux/Sharded.antt =====
-- lrux/sharded.go: the cache split into shards by the hash of the key. `hasher` is
-- `maphash.Comparable` with the cache's seed. Each shard is a cache of its own; a scan of all shards
-- reads a clock for each. Batches of 64 and more are worked off by a goroutine for each shard, which
-- share nothing; shorter ones one shard after the other. A shard that is not there would be a panic;
-- Shards shows that there is none.
use urx.Base.{
  ℕ, ◌+◌, ◌-◌, Bool, true, false, Option, none, some, List, [], ◌∷◌, ◌++◌, if◌then◌else◌, ◌==◌,
  get_elem?, set, replicate, u64,
}
use Prim.Native.Nat.{bit_and}
use urx.Base.Int.{ℤ, pos}
use urx.Lrux.Types.{Node, Cache}
use urx.Lrux.Cache
use urx.Lrux.Compute
use urx.Lrux.Compute.{Clock, Looks}
use urx.Panix.Recover.{Outcome}
use urx.Base.Errors.{Error}
use urx.Lrux.Sweeps
use urx.Lrux.Sweeps.{Stats}
use urx.Lrux.Config.{ComputeConfig, ShardedOption, new_sharded_config, next_pow2}

pub record Sharded {ℓ κ} (K : Type ℓ) (V : Type κ) : Type (ℓ ⊔ κ) where
  pub shards : List (Cache K V)
  pub shard_mask : ℕ
  pub closed : Bool

module _ {ℓ κ} {K : Type ℓ} {V : Type κ} where
  unfoldable pub new : List ShardedOption → Sharded K V
  unfolding new_sharded_config next_pow2 urx.Lrux.Cache.new
  new opts =
      let cfg = new_sharded_config opts in
      let count = next_pow2 cfg.shard_count in
      record {
        shards =
            replicate count
              (Cache.new (pos cfg.each.capacity) (pos cfg.each.ttl) cfg.each.on_evict);
        shard_mask = count - 1;
        closed = false;
      }

  -- A method of the shard with this index, which takes its number and returns it changed.
  abbrev pub at_shard :
      (Cache K V → Cache K V) → Option (Cache K V) → ℕ → List (Cache K V) → List (Cache K V)
  at_shard f none i shards = shards
  at_shard f (some c) i shards = set shards i (f c)

  -- A method of every shard, by its number.
  abbrev pub each_from : ℕ → (ℕ → Cache K V → Cache K V) → List (Cache K V) → List (Cache K V)
  each_from i f [] = []
  each_from i f (c ∷ cs) = f i c ∷ each_from (i + 1) f cs

  abbrev pub each : (ℕ → Cache K V → Cache K V) → Sharded K V → Sharded K V
  each f s = record s { shards = each_from 0 f s.shards }

  -- What a method of every shard returns, added up.
  abbrev pub sum_from : ℕ → (ℕ → Cache K V → ℕ) → List (Cache K V) → ℕ
  sum_from i f [] = 0
  sum_from i f (c ∷ cs) = f i c + sum_from (i + 1) f cs

  abbrev pub join_from {μ} : {R : Type μ} → ℕ → (ℕ → Cache K V → List R) → List (Cache K V) → List R
  join_from i f [] = []
  join_from i f (c ∷ cs) = f i c ++ join_from (i + 1) f cs

  unfoldable pub resize : ℤ → Sharded K V → Sharded K V
  resize capacity s = each (λ i c. Cache.resize capacity c) s

  unfoldable pub len : Sharded K V → ℕ
  len s = sum_from 0 (λ i c. Sweeps.len c) s.shards

  unfoldable pub len_valid : (ℕ → ℕ → ℕ) → Sharded K V → ℕ
  len_valid clocks s = sum_from 0 (λ i c. Sweeps.len_valid (clocks i) c) s.shards

  unfoldable pub clear : Sharded K V → Sharded K V
  clear s = each (λ i c. Sweeps.clear c) s

  unfoldable pub expire_old : (ℕ → ℕ → ℕ) → Sharded K V → Sharded K V × ℕ
  expire_old clocks s = (
    each (λ i c. Sweeps.sweep (clocks i) c) s,
    sum_from 0 (λ i c. (Sweeps.expire_old (clocks i) c).1) s.shards,
  )

  unfoldable pub close : Sharded K V → Sharded K V
  close s = if s.closed then s else each (λ i c. Sweeps.close c) (record s { closed = true })

  unfoldable pub stats : Sharded K V → Stats
  stats s = record {
    size = sum_from 0 (λ i c. (Sweeps.stats c).size) s.shards;
    capacity = sum_from 0 (λ i c. (Sweeps.stats c).capacity) s.shards;
    hits = u64 (sum_from 0 (λ i c. (Sweeps.stats c).hits) s.shards);
    misses = u64 (sum_from 0 (λ i c. (Sweeps.stats c).misses) s.shards);
    evictions = u64 (sum_from 0 (λ i c. (Sweeps.stats c).evictions) s.shards);
  }

  unfoldable pub reset_stats : Sharded K V → Sharded K V
  reset_stats s = each (λ i c. Sweeps.reset_stats c) s

  unfoldable pub keys : (ℕ → ℕ → ℕ) → Sharded K V → Sharded K V × List K
  keys clocks s = (
    each (λ i c. Sweeps.sweep (clocks i) c) s,
    join_from 0 (λ i c. (Sweeps.keys (clocks i) c).1) s.shards,
  )

  unfoldable pub values : (ℕ → ℕ → ℕ) → Sharded K V → Sharded K V × List V
  values clocks s = (
    each (λ i c. Sweeps.sweep (clocks i) c) s,
    join_from 0 (λ i c. (Sweeps.values (clocks i) c).1) s.shards,
  )

  unfoldable pub snapshot : (ℕ → ℕ → ℕ) → Sharded K V → Sharded K V × List (Node K V)
  snapshot clocks s = (
    each (λ i c. Sweeps.sweep (clocks i) c) s,
    join_from 0 (λ i c. (Sweeps.snapshot (clocks i) c).1) s.shards,
  )

  -- Whether `fn` stopped at one of the entries it was called with.
  abbrev pub stopped : (K → V → Bool) → List (Node K V) → Bool
  stopped fn [] = false
  stopped fn (n ∷ ns) = if fn n.key n.value then stopped fn ns else true

  -- `Range`: the shards up to the one where `fn` stopped.
  abbrev pub range_from :
      (K → V → Bool) → (ℕ → ℕ → ℕ) → ℕ → List (Cache K V) → List (Cache K V) × List (Node K V)
  range_from fn clocks i [] = ([], [])
  range_from fn clocks i (c ∷ cs) =
      let (c', seen) = Sweeps.range fn (clocks i) c in
      let (cs', more) = range_from fn clocks (i + 1) cs in
      if stopped fn seen then (c' ∷ cs, seen) else (c' ∷ cs', seen ++ more)

  abbrev pub range : (K → V → Bool) → (ℕ → ℕ → ℕ) → Sharded K V → Sharded K V × List (Node K V)
  range fn clocks s =
      let (cs, seen) = range_from fn clocks 0 s.shards in (record s { shards = cs }, seen)

  -- A batch goes to a shard that has a part of it.
  abbrev pub on_group {μ} :
      {R : Type μ} → (List R → Cache K V → Cache K V) → List R → Cache K V → Cache K V
  on_group f [] c = c
  on_group f (x ∷ xs) c = f (x ∷ xs) c

  module _ (hasher : K → ℕ) where
    -- `c.hasher(key)&c.shardMask`
    abbrev pub shard_index : Sharded K V → K → ℕ
    shard_index s key = bit_and (hasher key) s.shard_mask

    abbrev pub on_shard : K → (Cache K V → Cache K V) → Sharded K V → Sharded K V
    on_shard key f s =
        let i = shard_index s key in
        record s { shards = at_shard f (get_elem? s.shards i) i s.shards }

    -- What a method of the key's shard returns.
    abbrev pub of_shard {μ} : {R : Type μ} → R → K → (Cache K V → R) → Sharded K V → R
    of_shard nothing key f s = elim (get_elem? s.shards (shard_index s key)) [
      | none ↦ nothing
      | some c ↦ f c
    ]

    -- `groupKeys`, and the groups of `SetMulti`: those for the shard with index `i`.
    abbrev pub group_keys : Sharded K V → ℕ → List K → List K
    group_keys s i [] = []
    group_keys s i (key ∷ ks) =
        let rest = group_keys s i ks in if shard_index s key == i then key ∷ rest else rest

    abbrev pub group_items : Sharded K V → ℕ → List (K × V) → List (K × V)
    group_items s i [] = []
    group_items s i ((key, value) ∷ items) =
        let rest = group_items s i items in
        if shard_index s key == i then (key, value) ∷ rest else rest

    module _ (same : K → K → Bool) where
      unfoldable pub set_with_ttl : ℕ → K → V → ℤ → Sharded K V → Sharded K V
      set_with_ttl now key value ttl s =
          on_shard key (λ c. Cache.set_with_ttl same now key value ttl c) s

      unfoldable pub get : ℕ → ℕ → K → Sharded K V → Sharded K V × Option V
      get checked now key s = (
        on_shard key (λ c. (Cache.get same checked now key c).0) s,
        of_shard none key (λ c. (Cache.get same checked now key c).1) s,
      )

      unfoldable pub get_fast : ℕ → K → Sharded K V → Sharded K V × Option V
      get_fast checked key s = (
        on_shard key (λ c. (Cache.get_fast same checked key c).0) s,
        of_shard none key (λ c. (Cache.get_fast same checked key c).1) s,
      )

      unfoldable pub peek : ℕ → K → Sharded K V → Option (Node K V)
      peek checked key s = of_shard none key (λ c. Cache.peek same checked key c) s

      unfoldable pub has : ℕ → K → Sharded K V → Bool
      has checked key s = of_shard false key (λ c. Cache.has same checked key c) s

      unfoldable pub touch : ℕ → ℕ → K → Sharded K V → Sharded K V × Bool
      touch checked now key s = (
        on_shard key (λ c. (Cache.touch same checked now key c).0) s,
        of_shard false key (λ c. (Cache.touch same checked now key c).1) s,
      )

      unfoldable pub delete : K → Sharded K V → Sharded K V × Bool
      delete key s = (
        on_shard key (λ c. (Cache.delete same key c).0) s,
        of_shard false key (λ c. (Cache.delete same key c).1) s,
      )

      unfoldable pub ttl_of : ℕ → K → Sharded K V → ℤ
      ttl_of now key s = of_shard (pos 0) key (λ c. Sweeps.ttl_of same now key c) s

      unfoldable pub set_multi : (ℕ → ℕ) → List (K × V) → Sharded K V → Sharded K V
      set_multi nows items s =
          each (λ i c. on_group (Sweeps.set_multi same (nows i)) (group_items s i items) c) s

      unfoldable pub get_multi : (ℕ → ℕ → ℕ × ℕ) → List K → Sharded K V → Sharded K V × List (K × V)
      get_multi clocks ks s = (
        each (λ i c. (Sweeps.get_multi same (clocks i) 0 (group_keys s i ks) c).0) s,
        join_from 0 (λ i c. (Sweeps.get_multi same (clocks i) 0 (group_keys s i ks) c).1) s.shards,
      )

      unfoldable pub delete_multi : List K → Sharded K V → Sharded K V × ℕ
      delete_multi ks s = (
        each (λ i c. on_group (λ k c'. (Sweeps.delete_multi same k c').0) (group_keys s i ks) c) s,
        sum_from 0 (λ i c. (Sweeps.delete_multi same (group_keys s i ks) c).1) s.shards,
      )

      unfoldable pub get_or_compute :
          V
          → ComputeConfig
          → Clock
          → Looks
          → K
          → (Cache K V → Cache K V × Outcome V)
          → Option (V × Option Error)
          → Sharded K V
          → Option (V × Option Error) × Sharded K V
      get_or_compute zero_value cfg t looks key fn shared s =
          let call = Compute.get_or_compute same zero_value cfg t looks key fn shared in
          (
            of_shard none key (λ c. let (c', v, err) = call c in some (v, err)) s,
            on_shard key (λ c. (call c).0) s,
          )
