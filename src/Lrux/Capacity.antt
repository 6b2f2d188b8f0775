-- ===== src/Lrux/Capacity.antt =====
-- lrux/lrux.go: the cache never holds more entries than its capacity, where it has one.
use urx.Base.{
  ℕ, inl, inr, refl, Bool, true, false, Option, none, some, List, [], ◌∷◌, if-intro, arith, length,
  Option-cases,
}
use urx.Base.Int.{ℤ, pos, pos_part}
use urx.Lrux.Types.{Node, Cache}
use urx.Lrux.Cache.{
  new, find, erase, resize, expire_time, set_with_ttl, set_found, touch_found, peek_promote, peek,
  get, get_fast, touch, delete, count_get, count_found, drop_expired, move_to_front,
  slide_expiration,
}
use urx.Lrux.Sweeps.{
  scan, scan_while, sweep, range, clear, close, reset_stats, set_entries, set_multi, delete_entries,
  delete_multi,
}
use urx.Lrux.Nodes.{IsEquality}
use urx.Lrux.Evolution.{scan-sublist, scan_while-sublist}
use urx.Lrux.Ops.{
  CacheOp, op_set, op_get, op_get_fast, op_touch, op_delete, op_delete_multi, op_set_multi,
  op_resize, op_sweep, op_range, op_part, op_clear, op_close, op_reset_stats, step, run,
}
use urx.Lrux.Sizes.{erased-length, peek_promote-IsWithin, part-IsWithin}
use urx.Lrux.Bounds.{
  IsWithin, Shrinks-IsWithin, evict_one-IsWithin, evict_loop-IsWithin, dropped-IsWithin, if_open,
}

module _ {ℓ κ} {K : Type ℓ} {V : Type κ} (same : K → K → Bool) (eq : IsEquality same) where
  set-IsWithin :
      (now : ℕ) (key : K) (value : V) (ttl : ℤ) (c : Cache K V)
      → IsWithin c
      → IsWithin (set_with_ttl same now key value ttl c)
  unfolding set_with_ttl set_found
  set-IsWithin now key value ttl c w =
      if_open (λ x. x) c c _ w
        (elim (Option-cases (find same key c.nodes)) [
          | inl f ↦
              let fresh : Node K V = record {
                key = key;
                value = value;
                created_at = now;
                accessed_at = now;
                expires_at = expire_time now ttl c;
              } in
              rw f (evict_one-IsWithin (record c { nodes = fresh ∷ c.nodes }) (ground (arith, w)))
          | inr (n, f) ↦ rw f (ground (arith, w, erased-length same eq key n c.nodes f))
        ])

  touch-IsWithin :
      (checked now : ℕ) (key : K) (c : Cache K V)
      → IsWithin c
      → IsWithin (touch same checked now key c).0
  unfolding touch touch_found
  touch-IsWithin checked now key c w =
      if_open (λ (x : Cache K V × Bool). x.0) c (c, false) _ w
        (elim (Option-cases (find same key c.nodes)) [
          | inl f ↦ rw f w
          | inr (n, f) ↦ rw f (
              if-intro (λ (x : Cache K V × Bool). IsWithin x.0) _ _ _
                (Shrinks-IsWithin c (drop_expired same n c)
                  (refl, omega (arith, erased-length same eq key n c.nodes f)) w)
                (Shrinks-IsWithin c
                  (move_to_front same
                    (record n { expires_at = slide_expiration c.ttl now n; accessed_at = now }) c)
                  (refl, omega (arith, erased-length same eq key n c.nodes f)) w))
        ])

  delete-IsWithin : (key : K) (c : Cache K V) → IsWithin c → IsWithin (delete same key c).0
  unfolding delete
  delete-IsWithin key c w =
      if_open (λ (x : Cache K V × Bool). x.0) c (c, false) _ w
        (elim (Option-cases (find same key c.nodes)) [
          | inl f ↦ rw f w
          | inr (n, f) ↦ rw f (ground (arith, w, erased-length same eq key n c.nodes f))
        ])

  delete_entries-IsWithin :
      (ks : List K) (c : Cache K V) → IsWithin c → IsWithin (delete_entries same ks c).0
  delete_entries-IsWithin [] c w = w
  delete_entries-IsWithin (key ∷ ks) c w = elim (Option-cases (find same key c.nodes)) [
    | inl f ↦ rw (f, delete_entries) (delete_entries-IsWithin ks c w)
    | inr (n, f) ↦
        rw (f, delete_entries)
          (delete_entries-IsWithin ks (record c { nodes = erase same n.key c.nodes })
            (ground (arith, w, erased-length same eq key n c.nodes f)))
  ]

  count_get-IsWithin : (x : Cache K V × Option V) → IsWithin x.0 → IsWithin (count_get same x).0
  count_get-IsWithin (c, none) w = w
  count_get-IsWithin (c, some v) w = w

  count_found-IsWithin :
      (c : Cache K V) (o : Option (Node K V)) → IsWithin c → IsWithin (count_found same c o).0
  count_found-IsWithin c none w = w
  count_found-IsWithin c (some n) w = w

  step-IsWithin : (op : CacheOp K V) (c : Cache K V) → IsWithin c → IsWithin (step same op c)
  unfolding step get get_fast delete_multi set_multi resize sweep range clear close reset_stats
  step-IsWithin (op_set now key value ttl) c w = set-IsWithin now key value ttl c w
  step-IsWithin (op_get checked now key) c w =
      if_open (λ (x : Cache K V × Option V). x.0) c (c, none) _ w
        (count_get-IsWithin (peek_promote same checked now key c)
          (peek_promote-IsWithin same eq checked now key c w))
  step-IsWithin (op_get_fast checked key) c w =
      if_open (λ (x : Cache K V × Option V). x.0) c (c, none) _ w
        (count_found-IsWithin c (peek same checked key c) w)
  step-IsWithin (op_touch checked now key) c w = touch-IsWithin checked now key c w
  step-IsWithin (op_delete key) c w = delete-IsWithin key c w
  step-IsWithin (op_delete_multi ks) c w =
      if_open (λ (x : Cache K V × ℕ). x.0) c (c, 0) _ w (delete_entries-IsWithin ks c w)
  step-IsWithin (op_set_multi now items) c w =
      let sets = set_entries same now (expire_time now (pos 0) c) items c in
      if_open (λ x. x) c c _ w
        (evict_loop-IsWithin false (length sets.0.nodes) sets.0 (omega arith))
  step-IsWithin (op_resize capacity) c w =
      if_open (λ x. x) c c _ w
        (evict_loop-IsWithin true (length c.nodes) (record c { capacity = pos_part capacity })
          (omega arith))
  step-IsWithin (op_sweep clock) c w =
      if_open (λ x. x) c c _ w
        (dropped-IsWithin c (record c { nodes = (scan clock 0 c.nodes).0 }) refl
          (scan-sublist clock 0 c.nodes) w)
  step-IsWithin (op_range fn clock) c w =
      if_open (λ (x : Cache K V × List (Node K V)). x.0) c (c, []) _ w
        (dropped-IsWithin c (record c { nodes = (scan_while fn clock 0 c.nodes).0 }) refl
          (scan_while-sublist fn clock 0 c.nodes) w)
  step-IsWithin (op_part key part) c w = part-IsWithin same eq key part c w
  step-IsWithin op_clear c w = if_open (λ x. x) c c _ w (inr (omega arith))
  step-IsWithin op_close c w = if_open (λ x. x) c c _ w (inr (omega arith))
  step-IsWithin op_reset_stats c w = w

  run-kept : (ops : List (CacheOp K V)) (c : Cache K V) → IsWithin c → IsWithin (run same ops c)
  run-kept [] c w = w
  run-kept (op ∷ ops) c w = run-kept ops (step same op c) (step-IsWithin op c w)

  -- After any operations on a new cache, changes of its capacity among them, the cache has no bound
  -- or holds at most as many entries as its capacity.
  pub run-IsWithin :
      (ops : List (CacheOp K V)) (capacity ttl : ℤ) (has_hook : Bool)
      → IsWithin (run same ops (new capacity ttl has_hook))
  unfolding new
  run-IsWithin ops capacity ttl has_hook =
      run-kept ops (new capacity ttl has_hook) (inr (omega arith))
