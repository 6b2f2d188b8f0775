-- ===== src/Lrux/ShardedOps.antt =====
-- lrux/sharded.go: sequences of the methods, and the calls that a shard is to get of them.
use urx.Base.{ℕ, zero, suc, ◌+◌, Bool, true, List, [], ◌∷◌, ◌++◌, if◌then◌else◌, ◌==◌, false}
use urx.Base.Int.{ℤ}
use urx.Lrux.Types.{Cache}
use urx.Lrux.Ops.{
  CacheOp, op_set, op_get, op_get_fast, op_touch, op_delete, op_delete_multi, op_set_multi,
  op_resize, op_sweep, op_range, op_part, op_clear, op_close, op_reset_stats,
}
use urx.Lrux.Sweeps
use urx.Lrux.Parts.{Part, part_step}
use urx.Lrux.Sharded.{
  Sharded, on_shard, shard_index, resize, clear, expire_old, close, reset_stats, set_with_ttl, get,
  get_fast, touch, delete, set_multi, delete_multi, get_multi, stopped, range,
}

pub data ShardedOp {ℓ κ} (K : Type ℓ) (V : Type κ) : Type (ℓ ⊔ κ) where
  on_set : ℕ → K → V → ℤ → ShardedOp K V
  on_get : ℕ → ℕ → K → ShardedOp K V
  on_get_fast : ℕ → K → ShardedOp K V
  on_touch : ℕ → ℕ → K → ShardedOp K V
  on_delete : K → ShardedOp K V
  on_delete_multi : List K → ShardedOp K V
  on_set_multi : (ℕ → ℕ) → List (K × V) → ShardedOp K V
  on_resize : ℤ → ShardedOp K V
  on_expire : (ℕ → ℕ → ℕ) → ShardedOp K V
  on_get_multi : (ℕ → ℕ → ℕ × ℕ) → List K → ShardedOp K V
  on_range : (K → V → Bool) → (ℕ → ℕ → ℕ) → ShardedOp K V
  -- a part of `GetOrCompute` for a key
  on_part : K → Part V → ShardedOp K V
  on_clear on_close on_reset_stats : ShardedOp K V

-- The members of a batch that pass a test, in their order.
abbrev pub select {ℓ} : {A : Type ℓ} → (A → Bool) → List A → List A
select test [] = []
select test (x ∷ xs) = let rest = select test xs in if test x then x ∷ rest else rest

-- A get for each key, the one with index `j` for the first.
abbrev pub gets {ℓ κ} : {K : Type ℓ} {V : Type κ} → (ℕ → ℕ × ℕ) → ℕ → List K → List (CacheOp K V)
gets clock j [] = []
gets clock j (key ∷ ks) = op_get (clock j).0 (clock j).1 key ∷ gets clock (suc j) ks

-- `Range` comes to the shard with index `i` of those from `j` on: `fn` stopped in none before it.
abbrev pub visits {ℓ κ} :
    {K : Type ℓ} {V : Type κ} → (K → V → Bool) → (ℕ → ℕ → ℕ) → ℕ → List (Cache K V) → ℕ → Bool
visits fn clocks j [] i = false
visits fn clocks j (c ∷ cs) zero = true
visits fn clocks j (c ∷ cs) (suc i) =
    let rest = visits fn clocks (j + 1) cs i in
    if stopped fn (Sweeps.range fn (clocks j) c).1 then false else rest

-- The calls that a batch is for a shard.
abbrev pub batch {ℓ κ μ} :
    {K : Type ℓ} {V : Type κ} {R : Type μ} → (List R → CacheOp K V) → List R → List (CacheOp K V)
batch op [] = []
batch op (x ∷ xs) = op (x ∷ xs) ∷ []

module _ {ℓ κ} {K : Type ℓ} {V : Type κ} (hasher : K → ℕ) where
  -- What one operation is for the shard with index `i`: a call, or none.
  abbrev pub shard_op : Sharded K V → ℕ → ShardedOp K V → List (CacheOp K V)
  shard_op s i (on_set now key value ttl) =
      if shard_index hasher s key == i then op_set now key value ttl ∷ [] else []
  shard_op s i (on_get checked now key) =
      if shard_index hasher s key == i then op_get checked now key ∷ [] else []
  shard_op s i (on_get_fast checked key) =
      if shard_index hasher s key == i then op_get_fast checked key ∷ [] else []
  shard_op s i (on_touch checked now key) =
      if shard_index hasher s key == i then op_touch checked now key ∷ [] else []
  shard_op s i (on_delete key) = if shard_index hasher s key == i then op_delete key ∷ [] else []
  shard_op s i (on_delete_multi ks) =
      batch op_delete_multi (select (λ key. shard_index hasher s key == i) ks)
  shard_op s i (on_set_multi nows items) =
      batch (op_set_multi (nows i)) (select (λ x. shard_index hasher s x.0 == i) items)
  shard_op s i (on_get_multi clocks ks) =
      gets (clocks i) 0 (select (λ key. shard_index hasher s key == i) ks)
  shard_op s i (on_range fn clocks) =
      if visits fn clocks 0 s.shards i then op_range fn (clocks i) ∷ [] else []
  shard_op s i (on_part key part) =
      if shard_index hasher s key == i then op_part key part ∷ [] else []
  shard_op s i (on_resize n) = op_resize n ∷ []
  shard_op s i (on_expire clocks) = op_sweep (clocks i) ∷ []
  shard_op s i on_clear = op_clear ∷ []
  shard_op s i on_close = if s.closed then [] else op_close ∷ []
  shard_op s i on_reset_stats = op_reset_stats ∷ []

  module _ (same : K → K → Bool) where
    unfoldable pub step : ShardedOp K V → Sharded K V → Sharded K V
    unfolding set_with_ttl get get_fast touch delete delete_multi set_multi get_multi resize
        expire_old clear close reset_stats
    step (on_set now key value ttl) s = set_with_ttl hasher same now key value ttl s
    step (on_get checked now key) s = (get hasher same checked now key s).0
    step (on_get_fast checked key) s = (get_fast hasher same checked key s).0
    step (on_touch checked now key) s = (touch hasher same checked now key s).0
    step (on_delete key) s = (delete hasher same key s).0
    step (on_delete_multi ks) s = (delete_multi hasher same ks s).0
    step (on_set_multi nows items) s = set_multi hasher same nows items s
    step (on_get_multi clocks ks) s = (get_multi hasher same clocks ks s).0
    step (on_range fn clocks) s = (range fn clocks s).0
    step (on_part key part) s = on_shard hasher key (part_step same key part) s
    step (on_resize n) s = resize n s
    step (on_expire clocks) s = (expire_old clocks s).0
    step on_clear s = clear s
    step on_close s = close s
    step on_reset_stats s = reset_stats s

    abbrev pub run : List (ShardedOp K V) → Sharded K V → Sharded K V
    run [] s = s
    run (op ∷ ops) s = run ops (step op s)

    -- What the operations are for a shard, call by call.
    abbrev pub shard_ops : ℕ → List (ShardedOp K V) → Sharded K V → List (CacheOp K V)
    shard_ops i [] s = []
    shard_ops i (op ∷ ops) s = shard_op s i op ++ shard_ops i ops (step op s)
