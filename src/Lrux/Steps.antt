-- ===== src/Lrux/Steps.antt =====
-- lrux/lrux.go: what sequences of operations do to the nodes.
use urx.Base.{ℕ, inl, refl, subst, Bool, true, Option, none, List, [], ◌∷◌, length}
use urx.Base.Int.{ℤ, pos_part}
use urx.Lrux.Types.{Node, Cache}
use urx.Lrux.Cache.{new, peek, resize, peek_promote, get, get_fast}
use urx.Lrux.Sweeps.{sweep, range, clear, close, reset_stats, delete_multi}
use urx.Lrux.Nodes.{IsEquality}
use urx.Lrux.Evolution.{
  sublist_refl, sublist_nil, scan-sublist, scan_while-sublist, IsDistinct, Evolves, drops,
  Evolves-IsDistinct, Evolves-IsRecent, IsRecent, IsRecent-later,
}
use urx.Lrux.Ops.{
  CacheOp, op_set, op_get, op_get_fast, op_touch, op_delete, op_delete_multi, op_set_multi,
  op_resize, op_sweep, op_range, op_part, op_clear, op_close, op_reset_stats, step, run,
  access_time, InOrder, last_access,
}
use urx.Lrux.Closing.{IsDrained, step-IsDrained}
use urx.Lrux.Insertions.{part-Evolves}
use urx.Lrux.Moves.{
  set-Evolves, evict_loop-Evolves, peek_promote-Evolves, count_get-nodes, count_found-nodes,
  if_open, touch-Evolves, delete-Evolves, delete_entries-Evolves, set_multi-Evolves,
}

module _ {ℓ κ} {K : Type ℓ} {V : Type κ} (same : K → K → Bool) (eq : IsEquality same) where
  -- Every operation only drops nodes, or brings one with a key of its own to the front and marks it
  -- with the time of access.
  pub step-Evolves :
      (op : CacheOp K V) (before : ℕ) (c : Cache K V)
      → IsDrained c
      → IsDistinct same c.nodes
      → Evolves same (access_time op before) c.nodes (step same op c).nodes
  unfolding step get get_fast delete_multi resize sweep range clear close reset_stats
  step-Evolves (op_set now key value ttl) before c u d = set-Evolves same eq now key value ttl c d
  step-Evolves (op_get checked now key) before c u d =
      if_open same eq (λ (x : Cache K V × Option V). x.0) now c (c, none) _ refl
        (subst (Evolves same now c.nodes)
          (count_get-nodes same eq (peek_promote same checked now key c))
          (peek_promote-Evolves same eq checked now key c d))
  step-Evolves (op_get_fast checked key) before c u d =
      if_open same eq (λ (x : Cache K V × Option V). x.0) before c (c, none) _ refl
        (subst (Evolves same before c.nodes) (count_found-nodes same eq c (peek same checked key c))
          (drops (sublist_refl c.nodes)))
  step-Evolves (op_touch checked now key) before c u d = touch-Evolves same eq checked now key c d
  step-Evolves (op_delete key) before c u d = delete-Evolves same eq before key c
  step-Evolves (op_delete_multi ks) before c u d =
      if_open same eq (λ (x : Cache K V × ℕ). x.0) before c (c, 0) _ refl
        (delete_entries-Evolves same eq before ks c)
  step-Evolves (op_set_multi now items) before c u d = set_multi-Evolves same eq now items c d
  step-Evolves (op_resize capacity) before c u d =
      if_open same eq (λ x. x) before c c _ refl
        (evict_loop-Evolves same eq before true (length c.nodes)
          (record c { capacity = pos_part capacity }))
  step-Evolves (op_sweep clock) before c u d =
      if_open same eq (λ x. x) before c c _ refl (drops (scan-sublist clock 0 c.nodes))
  step-Evolves (op_range fn clock) before c u d =
      if_open same eq (λ (x : Cache K V × List (Node K V)). x.0) before c (c, []) _ refl
        (drops (scan_while-sublist fn clock 0 c.nodes))
  step-Evolves (op_part key part) before c u d = part-Evolves same eq key part before c u d
  step-Evolves op_clear before c u d =
      if_open same eq (λ x. x) before c c _ refl (drops (sublist_nil c.nodes))
  step-Evolves op_close before c u d =
      if_open same eq (λ x. x) before c c _ refl (drops (sublist_nil c.nodes))
  step-Evolves op_reset_stats before c u d = drops (sublist_refl c.nodes)

  run-Sound :
      (ops : List (CacheOp K V)) (before : ℕ) (c : Cache K V)
      → IsDrained c
      → IsDistinct same c.nodes
      → IsRecent before c.nodes
      → InOrder before ops
      → IsDistinct same (run same ops c).nodes
        × IsRecent (last_access before ops) (run same ops c).nodes
  run-Sound [] before c u d r o = (d, r)
  run-Sound (op ∷ ops) before c u d r o =
      let now = access_time op before in
      let v = step-Evolves op before c u d in
      run-Sound ops now (step same op c) (step-IsDrained same op c u)
        (Evolves-IsDistinct same now v d)
        (Evolves-IsRecent same now v (IsRecent-later before now c.nodes o.0 r)) o.1

  -- After any operations on a new cache, the parts of calls of `GetOrCompute` among them, in the
  -- order of their times of access, no key has two nodes, and the nodes stand in the order of their
  -- last access, the latest in front.
  pub run-IsRecent :
      (ops : List (CacheOp K V)) (start : ℕ) (capacity ttl : ℤ) (has_hook : Bool)
      → InOrder start ops
      → let c = run same ops (new capacity ttl has_hook) in
        IsDistinct same c.nodes × IsRecent (last_access start ops) c.nodes
  unfolding new
  run-IsRecent ops start capacity ttl has_hook o =
      run-Sound ops start (new capacity ttl has_hook) (inl refl) tt tt o
