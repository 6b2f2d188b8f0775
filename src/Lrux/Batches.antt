-- ===== src/Lrux/Batches.antt =====
-- lrux/sharded.go: what a shard gets of a batch, and of a `Range`.
use urx.Base.{
  ℕ, zero, suc, ◌+◌, ◌≡◌, refl, ap, ◌∙◌, Bool, Option, none, some, List, [], ◌∷◌, if◌then◌else◌,
  ◌==◌, get_elem?, arith, if-both, if-intro, false,
}
use urx.Lrux.Types.{Node, Cache}
use urx.Lrux.Ops
use urx.Lrux.Ops.{
  CacheOp, op_set, op_get, op_get_fast, op_touch, op_delete, op_delete_multi, op_set_multi,
  op_resize, op_sweep, op_range, op_part, op_clear, op_close, op_reset_stats,
}
use urx.Lrux.Cache
use urx.Lrux.Sweeps
use urx.Lrux.Sharded.{Sharded, shard_index, group_keys, group_items, on_group, stopped, range_from}
use urx.Lrux.ShardedOps.{select, gets, visits, batch}

module _ {ℓ κ} {K : Type ℓ} {V : Type κ} (hasher : K → ℕ) where
  module _ (same : K → K → Bool) where
    pub run-batch {μ} :
        {R : Type μ} (op : List R → CacheOp K V) (xs : List R) (c : Cache K V)
        → on_group (λ ys. Ops.step same (op ys)) xs c ≡ Ops.run same (batch op xs) c
    run-batch op [] c = refl
    run-batch op (x ∷ xs) c = refl

    pub group_keys-select :
        (s : Sharded K V) (i : ℕ) (ks : List K)
        → group_keys hasher s i ks ≡ select (λ key. shard_index hasher s key == i) ks
    group_keys-select s i [] = refl
    group_keys-select s i (key ∷ ks) =
        ap (λ rest. if shard_index hasher s key == i then key ∷ rest else rest)
          (group_keys-select s i ks)

    pub group_items-select :
        (s : Sharded K V) (i : ℕ) (items : List (K × V))
        → group_items hasher s i items ≡ select (λ x. shard_index hasher s x.0 == i) items
    group_items-select s i [] = refl
    group_items-select s i ((key, value) ∷ items) =
        ap (λ rest. if shard_index hasher s key == i then (key, value) ∷ rest else rest)
          (group_items-select s i items)

    pub get_multi-gets :
        (clock : ℕ → ℕ × ℕ) (j : ℕ) (ks : List K) (c : Cache K V)
        → (Sweeps.get_multi same clock j ks c).0 ≡ Ops.run same (gets clock j ks) c
    unfolding urx.Lrux.Sweeps.get_multi urx.Lrux.Ops.step
    get_multi-gets clock j [] c = refl
    get_multi-gets clock j (key ∷ ks) c =
        get_multi-gets clock (suc j) ks (Cache.get same (clock j).0 (clock j).1 key c).0

    pub range_from-shard :
        (fn : K → V → Bool) (clocks : ℕ → ℕ → ℕ) (j : ℕ) (cs : List (Cache K V)) (i : ℕ)
        (c : Cache K V)
        → get_elem? cs i ≡ some c
        → get_elem? (range_from fn clocks j cs).0 i
          ≡ some (
              Ops.run same
                (if visits fn clocks j cs i then op_range fn (clocks (j + i)) ∷ [] else [])
                c)
    unfolding urx.Lrux.Ops.step
    range_from-shard fn clocks j [] i c h = absurd cc
    range_from-shard fn clocks j (x ∷ cs) zero c h =
        let ranged = λ (k : ℕ) (d : Cache K V). (Sweeps.range fn (clocks k) d).0 in
        let here : some (ranged j x) ≡ some (ranged (j + 0) c) =
          ap (λ (o : Option (Cache K V)). elim o [ none ↦ none | some d ↦ some (ranged j d) ]) h
          ∙ ap (λ k. some (ranged k c)) (let e : j ≡ j + 0 = omega arith in e) in
        if-intro
          (λ (y : List (Cache K V) × List (Node K V)).
            get_elem? y.0 zero ≡ some (Ops.run same (op_range fn (clocks (j + 0)) ∷ []) c))
          (stopped fn (Sweeps.range fn (clocks j) x).1) _ _ here here
    range_from-shard fn clocks j (x ∷ cs) (suc i) c h =
        if-both
          (λ (y : List (Cache K V) × List (Node K V)) (b : Bool).
            get_elem? y.0 (suc i)
            ≡ some (Ops.run same (if b then op_range fn (clocks (j + suc i)) ∷ [] else []) c))
          (stopped fn (Sweeps.range fn (clocks j) x).1) _ _ false (visits fn clocks (j + 1) cs i) h
          (range_from-shard fn clocks (j + 1) cs i c h
            ∙ ap
                (λ k. some (
                  Ops.run same
                    (if visits fn clocks (j + 1) cs i then op_range fn (clocks k) ∷ [] else []) c))
                (let e : j + 1 + i ≡ j + suc i = omega arith in e))
