-- ===== src/Lrux/Shards.antt =====
-- lrux/sharded.go: each shard gets the calls that are for it.
use urx.Base.{
  ℕ, ◌+◌, ◌≡◌, ap, subst, ◌∙◌, Bool, some, List, [], ◌∷◌, if◌then◌else◌, ◌==◌, get_elem?, arith,
  if-cases, if-both,
}
use urx.Lrux.Types.{Cache}
use urx.Lrux.Ops
use urx.Lrux.Ops.{
  CacheOp, op_set, op_get, op_get_fast, op_touch, op_delete, op_delete_multi, op_set_multi,
  op_resize, op_sweep, op_range, op_part, op_clear, op_close, op_reset_stats,
}
use urx.Lrux.Sweeps
use urx.Lrux.Composed.{run-append}
use urx.Lrux.Placing.{each-at, at_shard-other, at_shard-own}
use urx.Lrux.Sharded.{
  Sharded, at_shard, on_shard, shard_index, group_keys, group_items, on_group, resize, clear,
  expire_old, close, reset_stats, set_with_ttl, get, get_fast, touch, delete, set_multi,
  delete_multi, get_multi,
}
use urx.Lrux.Batches.{
  run-batch, group_keys-select, group_items-select, get_multi-gets, range_from-shard,
}
use urx.Lrux.ShardedOps.{
  ShardedOp, on_set, on_get, on_get_fast, on_touch, on_delete, on_set_multi, on_delete_multi,
  on_get_multi, on_range, on_part, on_resize, on_expire, on_clear, on_close, on_reset_stats, gets,
  visits, batch, shard_op, step, run, shard_ops,
}

module _ {ℓ κ} {K : Type ℓ} {V : Type κ} (hasher : K → ℕ) where
  module _ (same : K → K → Bool) where
    on_shard-step :
        (key : K) (op : CacheOp K V) (s : Sharded K V) (i : ℕ) (c : Cache K V)
        → get_elem? s.shards i ≡ some c
        → get_elem? (on_shard hasher key (Ops.step same op) s).shards i
          ≡ some (Ops.run same (if shard_index hasher s key == i then op ∷ [] else []) c)
    on_shard-step key op s i c h =
        let j = shard_index hasher s key in
        let f = Ops.step same op in
        if-cases
          (λ (ops : List (CacheOp K V)).
            get_elem? (at_shard f (get_elem? s.shards j) j s.shards) i ≡ some (Ops.run same ops c))
          (j == i) (op ∷ []) []
          (λ e.
            subst (λ k. get_elem? (at_shard f (get_elem? s.shards k) k s.shards) i ≡ some (f c))
              (let q : i ≡ j = ground (arith, e) in q) (at_shard-own f i s.shards c h))
          (λ e.
            at_shard-other f (get_elem? s.shards j) j i s.shards (λ q. ground (arith, e, q)) ∙ h)

    step-shard :
        (op : ShardedOp K V) (s : Sharded K V) (i : ℕ) (c : Cache K V)
        → get_elem? s.shards i ≡ some c
        → get_elem? (step hasher same op s).shards i
          ≡ some (Ops.run same (shard_op hasher s i op) c)
    unfolding step set_with_ttl get get_fast touch delete delete_multi set_multi get_multi resize
        expire_old clear close reset_stats urx.Lrux.Ops.step
    step-shard (on_set now key value ttl) s i c h =
        on_shard-step key (op_set now key value ttl) s i c h
    step-shard (on_get checked now key) s i c h = on_shard-step key (op_get checked now key) s i c h
    step-shard (on_get_fast checked key) s i c h =
        on_shard-step key (op_get_fast checked key) s i c h
    step-shard (on_touch checked now key) s i c h =
        on_shard-step key (op_touch checked now key) s i c h
    step-shard (on_delete key) s i c h = on_shard-step key (op_delete key) s i c h
    step-shard (on_delete_multi ks) s i c h =
        each-at (λ k. on_group (λ g. Ops.step same (op_delete_multi g)) (group_keys hasher s k ks))
          s.shards i c h
        ∙ ap some (run-batch hasher same op_delete_multi (group_keys hasher s i ks) c)
        ∙ ap (λ g. some (Ops.run same (batch op_delete_multi g) c))
            (group_keys-select hasher same s i ks)
    step-shard (on_set_multi nows items) s i c h =
        each-at
          (λ k.
            on_group (λ g. Ops.step same (op_set_multi (nows k) g)) (group_items hasher s k items))
          s.shards i c h
        ∙ ap some (run-batch hasher same (op_set_multi (nows i)) (group_items hasher s i items) c)
        ∙ ap (λ g. some (Ops.run same (batch (op_set_multi (nows i)) g) c))
            (group_items-select hasher same s i items)
    step-shard (on_get_multi clocks ks) s i c h =
        each-at (λ k d. (Sweeps.get_multi same (clocks k) 0 (group_keys hasher s k ks) d).0)
          s.shards i c h
        ∙ ap some (get_multi-gets hasher same (clocks i) 0 (group_keys hasher s i ks) c)
        ∙ ap (λ g. some (Ops.run same (gets (clocks i) 0 g) c))
            (group_keys-select hasher same s i ks)
    step-shard (on_range fn clocks) s i c h =
        range_from-shard hasher same fn clocks 0 s.shards i c h
        ∙ ap
            (λ k. some (
              Ops.run same
                (if visits fn clocks 0 s.shards i then op_range fn (clocks k) ∷ [] else []) c))
            (let e : 0 + i ≡ i = omega arith in e)
    step-shard (on_part key part) s i c h = on_shard-step key (op_part key part) s i c h
    step-shard (on_resize n) s i c h = each-at (λ k. Ops.step same (op_resize n)) s.shards i c h
    step-shard (on_expire clocks) s i c h =
        each-at (λ k. Ops.step same (op_sweep (clocks k))) s.shards i c h
    step-shard on_clear s i c h = each-at (λ k. Ops.step same op_clear) s.shards i c h
    step-shard on_close s i c h =
        if-both
          (λ (x : Sharded K V) (ops : List (CacheOp K V)).
            get_elem? x.shards i ≡ some (Ops.run same ops c))
          s.closed s _ [] (op_close ∷ []) h (each-at (λ k. Ops.step same op_close) s.shards i c h)
    step-shard on_reset_stats s i c h = each-at (λ k. Ops.step same op_reset_stats) s.shards i c h

    -- For every sequence of methods on a sharded cache, each without another in between: a shard is
    -- at the end what a cache of its own is after the calls that are for it, in their order. Those
    -- are the calls on the keys whose hash leads to it, the parts of `GetOrCompute` among them, of
    -- each batch the part with such keys, and the methods for all shards; a second `Close` is none,
    -- and `Range` comes to a shard if the callback stopped in none before it.
    pub run-shard :
        (ops : List (ShardedOp K V)) (s : Sharded K V) (i : ℕ) (c : Cache K V)
        → get_elem? s.shards i ≡ some c
        → get_elem? (run hasher same ops s).shards i
          ≡ some (Ops.run same (shard_ops hasher same i ops s) c)
    run-shard [] s i c h = h
    run-shard (op ∷ ops) s i c h =
        let c' = Ops.run same (shard_op hasher s i op) c in
        run-shard ops (step hasher same op s) i c' (step-shard op s i c h)
        ∙ ap some (
            run-append same (shard_op hasher s i op)
              (shard_ops hasher same i ops (step hasher same op s)) c)
