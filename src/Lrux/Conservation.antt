-- ===== src/Lrux/Conservation.antt =====
-- lrux/lrux.go: no value is lost: what was stored is in the cache or was reported to the callback.
use urx.Base.{
  ℕ, ◌+◌, ◌≡◌, refl, inl, Bool, true, Option, none, List, [], ◌∷◌, if◌then◌else◌, arith, length,
}
use urx.Base.Int.{ℤ, pos_part}
use urx.Lrux.Types.{Node, Cache}
use urx.Lrux.Cache.{new, find, peek_promote, peek, get, get_fast, evict_loop, resize}
use urx.Lrux.Sweeps.{
  scan, scan_while, sweep, range, clear, close, reset_stats, delete_entries, delete_multi,
}
use urx.Lrux.Nodes.{IsEquality, one_if, count_if-scan, count_if-scan_while}
use urx.Lrux.Ops.{
  CacheOp, op_set, op_get, op_get_fast, op_touch, op_delete, op_delete_multi, op_set_multi,
  op_resize, op_sweep, op_range, op_part, op_clear, op_close, op_reset_stats, step, run,
}
use urx.Lrux.Parts.{promotes, counts_hit, counts_miss, converts, stores}
use urx.Lrux.Insertions.{is_missing, part-Adds}
use urx.Lrux.Closing.{IsDrained, step-IsDrained}
use urx.Lrux.Held.{
  in_nodes, in_events, held, Adds, fire-Adds, evict_loop-Keeps, delete_entries-Keeps, in_items,
}
use urx.Lrux.Reports.{
  guarded, unguarded, same-Adds, set-Adds, peek_promote-Adds, count_get-Adds, count_found-Adds,
  touch-Adds, delete-Adds, set_multi-Adds, drained-Adds, expired-Adds,
}

module _ {ℓ κ} {K : Type ℓ} {V : Type κ} (p : K → V → Bool) (same : K → K → Bool) where
  -- How many values that pass the test an operation stores in an open cache: `GetOrCompute` stores
  -- one where its last look finds the key missing or expired.
  abbrev pub stored_by : CacheOp K V → Cache K V → ℕ
  stored_by (op_set now key value ttl) c = one_if (p key value)
  stored_by (op_set_multi now items) c = in_items p items
  stored_by (op_part key (stores t value ttl)) c =
      if is_missing same t.last_checked (find same key c.nodes) then one_if (p key value) else 0
  stored_by _ c = 0

  abbrev pub stored : List (CacheOp K V) → Cache K V → ℕ
  stored [] c = 0
  stored (op ∷ ops) c = (if c.closed then 0 else stored_by op c) + stored ops (step same op c)

module _ {ℓ κ} {K : Type ℓ} {V : Type κ} (p : K → V → Bool) (same : K → K → Bool)
    (eq : IsEquality same) where
  step-Adds :
      (op : CacheOp K V) (c : Cache K V)
      → IsDrained c
      → c.has_hook ≡ true
      → Adds p (if c.closed then 0 else stored_by p same op c) c (step same op c)
  unfolding step get get_fast delete_multi resize sweep range clear close reset_stats
  step-Adds (op_set now key value ttl) c d h = set-Adds p same eq now key value ttl c h
  step-Adds (op_get checked now key) c d h =
      guarded p same eq (λ (x : Cache K V × Option V). x.0) c.closed 0 c (c, none) _
        (same-Adds p same eq c h)
        (count_get-Adds p same eq c (peek_promote same checked now key c)
          (peek_promote-Adds p same eq checked now key c h))
  step-Adds (op_get_fast checked key) c d h =
      guarded p same eq (λ (x : Cache K V × Option V). x.0) c.closed 0 c (c, none) _
        (same-Adds p same eq c h) (count_found-Adds p same eq c (peek same checked key c) h)
  step-Adds (op_touch checked now key) c d h = touch-Adds p same eq checked now key c h
  step-Adds (op_delete key) c d h = delete-Adds p same eq key c h
  step-Adds (op_delete_multi ks) c d h =
      let deleted = delete_entries same ks c in
      guarded p same eq (λ (x : Cache K V × ℕ). x.0) c.closed 0 c (c, 0) _ (same-Adds p same eq c h)
        (fire-Adds p 0 c deleted.0 deleted.1 h (delete_entries-Keeps p same eq ks c))
  step-Adds (op_set_multi now items) c d h = set_multi-Adds p same eq now items c h
  step-Adds (op_resize capacity) c d h =
      let resized = record c { capacity = pos_part capacity } in
      let trimmed = evict_loop true (length c.nodes) resized in
      guarded p same eq (λ x. x) c.closed 0 c c _ (same-Adds p same eq c h)
        (fire-Adds p 0 c trimmed.0 trimmed.1 h (evict_loop-Keeps p true (length c.nodes) resized h))
  step-Adds (op_sweep clock) c d h =
      guarded p same eq (λ x. x) c.closed 0 c c _ (same-Adds p same eq c h)
        (expired-Adds p same eq c (record c { nodes = (scan clock 0 c.nodes).0 })
          (scan clock 0 c.nodes).1 h refl refl
          (count_if-scan (λ n. p n.key n.value) clock 0 c.nodes))
  step-Adds (op_range fn clock) c d h =
      guarded p same eq (λ (x : Cache K V × List (Node K V)). x.0) c.closed 0 c (c, []) _
        (same-Adds p same eq c h)
        (expired-Adds p same eq c (record c { nodes = (scan_while fn clock 0 c.nodes).0 })
          (scan_while fn clock 0 c.nodes).1 h refl refl
          (count_if-scan_while (λ n. p n.key n.value) fn clock 0 c.nodes))
  step-Adds (op_part key (promotes checked now)) c d h =
      part-Adds p same eq key (promotes checked now) c d h
  step-Adds (op_part key counts_hit) c d h = part-Adds p same eq key counts_hit c d h
  step-Adds (op_part key counts_miss) c d h = part-Adds p same eq key counts_miss c d h
  step-Adds (op_part key converts) c d h = part-Adds p same eq key converts c d h
  step-Adds (op_part key (stores t value ttl)) c d h =
      part-Adds p same eq key (stores t value ttl) c d h
  step-Adds op_clear c d h =
      guarded p same eq (λ x. x) c.closed 0 c c _ (same-Adds p same eq c h)
        (drained-Adds p same eq c (record c { nodes = [] }) h refl refl refl)
  step-Adds op_close c d h =
      guarded p same eq (λ x. x) c.closed 0 c c _ (same-Adds p same eq c h)
        (drained-Adds p same eq c (record c { nodes = [] }) h refl refl refl)
  step-Adds op_reset_stats c d h = unguarded p same eq c.closed c (reset_stats c) (omega arith, h)

  run-Adds :
      (ops : List (CacheOp K V)) (c : Cache K V)
      → IsDrained c
      → c.has_hook ≡ true
      → held p (run same ops c) ≡ held p c + stored p same ops c
  run-Adds [] c d h = omega arith
  run-Adds (op ∷ ops) c d h =
      let (e, still) = step-Adds op c d h in
      omega (arith, e, run-Adds ops (step same op c) (step-IsDrained same op c d) still)

  -- With a callback, after any operations on a new cache, the parts of calls of `GetOrCompute` among
  -- them: of the stored keys and values that pass a test, as many as were stored are in the cache or
  -- were reported to the callback, each one once.
  pub run-held :
      (ops : List (CacheOp K V)) (capacity ttl : ℤ)
      → let start = new capacity ttl true in
        let c = run same ops start in
        in_nodes p c.nodes + in_events p c.fired ≡ stored p same ops start
  unfolding new
  run-held ops capacity ttl = omega (arith, run-Adds ops (new capacity ttl true) (inl refl) refl)
