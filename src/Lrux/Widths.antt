-- ===== src/Lrux/Widths.antt =====
-- lrux/sharded.go and hash.go: the number of the shards, and the index that a key's hash leads to.
use urx.Base.{
  ℕ, zero, suc, ◌+◌, ◌*◌, ◌/◌, ◌^◌, ◌<◌, ◌≤◌, ◌≡◌, ◌⊎◌, refl, sym, ap, subst, ◌∙◌, Bool, Option,
  none, some, List, [], ◌∷◌, ltb, length, get_elem?, replicate, arith, min, inl, inr, if-intro,
  if-cases,
}
use Prim.Native.Nat.{bit_and, bit_and-bitwise, digits}
use native.Mathlib.Nat.{pow-succ'}
use urx.Base.Slices.{get_elem?_bound, get_elem?_total, length-replicate, length-set}
use urx.Base.Int.{pos, negsuc}
use urx.Lrux.Types.{Node, Cache}
use urx.Lrux.Cache
use urx.Lrux.Sweeps
use urx.Lrux.Ops
use urx.Lrux.Bounds.{IsWithin}
use urx.Lrux.Capacity.{run-IsWithin}
use urx.Lrux.Nodes.{IsEquality}
use urx.Lrux.Config.{
  ShardedOption, ShardedConfig, with_shard_count, with_shard, apply_sharded, apply_all_sharded,
  new_sharded_config, double_up, next_pow2,
}
use urx.Lrux.Sharded.{
  Sharded, new, at_shard, each_from, on_shard, shard_index, resize, clear, expire_old, close,
  reset_stats, set_with_ttl, get, get_fast, touch, delete, set_multi, delete_multi, get_multi,
  range_from, stopped,
}
use urx.Lrux.Shards.{run-shard}
use urx.Lrux.ShardedOps.{
  ShardedOp, on_set, on_get, on_get_fast, on_touch, on_delete, on_set_multi, on_delete_multi,
  on_get_multi, on_range, on_part, on_resize, on_expire, on_clear, on_close, on_reset_stats, step,
  run, shard_ops,
}

digits-le : (n a b : ℕ) → digits (λ _. 0) min n a b ≤ b
digits-le zero a b = omega arith
digits-le (suc n) zero b = omega arith
digits-le (suc n) (suc a) b = omega (arith, digits-le n (suc a / 2) (b / 2))

bit_and-le : (a b : ℕ) → bit_and a b ≤ b
bit_and-le a b = subst (λ x. x ≤ b) (sym (bit_and-bitwise a b)) (digits-le a a b)

abbrev pub IsPowerOfTwo : ℕ → Type 0
IsPowerOfTwo n = (k : ℕ) × (n ≡ 2 ^ k)

double_up_lem :
    (fuel count n : ℕ)
    → 0 < count
    → n ≤ count + fuel
    → IsPowerOfTwo count
    → let d = double_up fuel count n in IsPowerOfTwo d × (n ≤ d) × ((d ≡ count) ⊎ (d < 2 * n))
double_up_lem zero count n p h k = (k, omega arith, inl refl)
double_up_lem (suc fuel) count n p h (k, e) =
    let more = double_up fuel (2 * count) n in
    let twice : 2 * count ≡ 2 ^ suc k =
      ap (λ x. 2 * x) e ∙ (let s : 2 * 2 ^ k ≡ 2 ^ suc k = omega (arith, pow-succ' 2 k) in s) in
    let (q, l, b) =
      double_up_lem fuel (2 * count) n (omega (arith, p)) (omega (arith, p, h)) (suc k, twice) in
    if-cases (λ (d : ℕ). IsPowerOfTwo d × (n ≤ d) × ((d ≡ count) ⊎ (d < 2 * n))) (ltb count n) more
      count (λ t. (q, l, inr (let s : count < n = ground (arith, t) in omega (arith, s, b))))
      (λ t. ((k, e), (let s : n ≤ count = ground (arith, t) in s), inl refl))

pub next_pow2_lem :
    (n : ℕ) → 0 < n → let d = next_pow2 n in IsPowerOfTwo d × (n ≤ d) × ((d ≡ 1) ⊎ (d < 2 * n))
unfolding next_pow2
next_pow2_lem n h = double_up_lem n 1 n (omega arith) (omega arith) (0, refl)

-- The count that the options come to.
apply_all_sharded-count :
    (opts : List ShardedOption) (c : ShardedConfig)
    → 0 < c.shard_count
    → 0 < (apply_all_sharded opts c).shard_count
unfolding apply_sharded
apply_all_sharded-count [] c h = h
apply_all_sharded-count (with_shard_count (pos zero) ∷ opts) c h = apply_all_sharded-count opts c h
apply_all_sharded-count (with_shard_count (pos (suc n)) ∷ opts) c h =
    apply_all_sharded-count opts _ (omega arith)
apply_all_sharded-count (with_shard_count (negsuc n) ∷ opts) c h = apply_all_sharded-count opts c h
apply_all_sharded-count (with_shard opt ∷ opts) c h = apply_all_sharded-count opts _ h

module _ {ℓ κ} {K : Type ℓ} {V : Type κ} where
  length-at_shard :
      (f : Cache K V → Cache K V) (o : Option (Cache K V)) (i : ℕ) (cs : List (Cache K V))
      → length (at_shard f o i cs) ≡ length cs
  length-at_shard f none i cs = refl
  length-at_shard f (some c) i cs = length-set cs i (f c)

  length-each_from :
      (j : ℕ) (f : ℕ → Cache K V → Cache K V) (cs : List (Cache K V))
      → length (each_from j f cs) ≡ length cs
  length-each_from j f [] = refl
  length-each_from j f (c ∷ cs) = ap suc (length-each_from (j + 1) f cs)

  length-range_from :
      (fn : K → V → Bool) (clocks : ℕ → ℕ → ℕ) (j : ℕ) (cs : List (Cache K V))
      → length (range_from fn clocks j cs).0 ≡ length cs
  length-range_from fn clocks j [] = refl
  length-range_from fn clocks j (c ∷ cs) =
      if-intro (λ (x : List (Cache K V) × List (Node K V)). length x.0 ≡ suc (length cs))
        (stopped fn (Sweeps.range fn (clocks j) c).1) _ _ refl
        (ap suc (length-range_from fn clocks (j + 1) cs))

  module _ (hasher : K → ℕ) (same : K → K → Bool) where
    on_shard-width :
        (key : K) (f : Cache K V → Cache K V) (s : Sharded K V)
        → length (on_shard hasher key f s).shards ≡ length s.shards
    on_shard-width key f s =
        let i = shard_index hasher s key in length-at_shard f (get_elem? s.shards i) i s.shards

    -- No method changes the number of the shards.
    step-width :
        (op : ShardedOp K V) (s : Sharded K V)
        → let s' = step hasher same op s in
          (length s'.shards ≡ length s.shards) × (s'.shard_mask ≡ s.shard_mask)
    unfolding step set_with_ttl get get_fast touch delete delete_multi set_multi get_multi resize
        expire_old clear close reset_stats
    step-width (on_set now key value ttl) s = (on_shard-width key _ s, refl)
    step-width (on_get checked now key) s = (on_shard-width key _ s, refl)
    step-width (on_get_fast checked key) s = (on_shard-width key _ s, refl)
    step-width (on_touch checked now key) s = (on_shard-width key _ s, refl)
    step-width (on_delete key) s = (on_shard-width key _ s, refl)
    step-width (on_delete_multi ks) s = (length-each_from 0 _ s.shards, refl)
    step-width (on_set_multi nows items) s = (length-each_from 0 _ s.shards, refl)
    step-width (on_get_multi clocks ks) s = (length-each_from 0 _ s.shards, refl)
    step-width (on_range fn clocks) s = (length-range_from fn clocks 0 s.shards, refl)
    step-width (on_part key part) s = (on_shard-width key _ s, refl)
    step-width (on_resize n) s = (length-each_from 0 _ s.shards, refl)
    step-width (on_expire clocks) s = (length-each_from 0 _ s.shards, refl)
    step-width on_clear s = (length-each_from 0 _ s.shards, refl)
    step-width on_close s =
        if-intro
          (λ (x : Sharded K V). (length x.shards ≡ length s.shards) × (x.shard_mask ≡ s.shard_mask))
          s.closed s _ (refl, refl) (length-each_from 0 _ s.shards, refl)
    step-width on_reset_stats s = (length-each_from 0 _ s.shards, refl)

    run-width :
        (ops : List (ShardedOp K V)) (s : Sharded K V)
        → let s' = run hasher same ops s in
          (length s'.shards ≡ length s.shards) × (s'.shard_mask ≡ s.shard_mask)
    run-width [] s = (refl, refl)
    run-width (op ∷ ops) s =
        let (l, m) = step-width op s in
        let (l', m') = run-width ops (step hasher same op s) in (l' ∙ l, m' ∙ m)

    get_elem?-replicate : (n i : ℕ) (c x : Cache K V) → get_elem? (replicate n c) i ≡ some x → x ≡ c
    get_elem?-replicate zero i c x h = cc
    get_elem?-replicate (suc n) zero c x h = cc
    get_elem?-replicate (suc n) (suc i) c x h = get_elem?-replicate n i c x h

    -- For every sequence of methods on a new sharded cache, the parts of calls of `GetOrCompute` among
    -- them, whatever options it got: the number of shards is a power of two, the hash of any key leads to one of them, so that no method panics,
    -- and each shard has no bound or holds at most as many entries as its capacity.
    pub run_sharded-IsWithin :
        (eq : IsEquality same) (ops : List (ShardedOp K V)) (opts : List ShardedOption)
        → let s = run hasher same ops (new opts) in
          IsPowerOfTwo (length s.shards)
          × ((key : K) → shard_index hasher s key < length s.shards)
          × ((i : ℕ) (c : Cache K V) → get_elem? s.shards i ≡ some c → IsWithin c)
    unfolding new new_sharded_config
    run_sharded-IsWithin eq ops opts =
        let s0 = new opts in
        let s = run hasher same ops s0 in
        let cfg = new_sharded_config opts in
        let count = next_pow2 cfg.shard_count in
        let (l, m) = run-width ops s0 in
        let positive : 0 < cfg.shard_count = apply_all_sharded-count opts _ (omega arith) in
        let (p, big, small) = next_pow2_lem cfg.shard_count positive in
        let fresh = Cache.new (pos cfg.each.capacity) (pos cfg.each.ttl) cfg.each.on_evict in
        let width : length s.shards ≡ count = l ∙ length-replicate count fresh in
        (
          subst IsPowerOfTwo (sym width) p,
          (λ key.
              let low = bit_and-le (hasher key) s.shard_mask in
              omega (arith, low, m, width, big, positive)),
          (λ i c h.
              let (c0, e0) =
                get_elem?_total s0.shards i (omega (arith, l, get_elem?_bound s.shards i c h)) in
              let new_one = get_elem?-replicate count i fresh c0 e0 in
              let run_c = run-shard hasher same ops s0 i c0 e0 in
              let calls = shard_ops hasher same i ops s0 in
              let whole : c ≡ Ops.run same calls fresh =
                (let same_c : c ≡ Ops.run same calls c0 = cc in same_c)
                ∙ ap (Ops.run same calls) new_one in
              subst IsWithin (sym whole) (
                run-IsWithin same eq calls (pos cfg.each.capacity) (pos cfg.each.ttl)
                  cfg.each.on_evict)),
        )
