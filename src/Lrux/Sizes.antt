-- ===== src/Lrux/Sizes.antt =====
-- lrux/lrux.go and compute.go: the size of the cache after the parts of `GetOrCompute`.
use urx.Base.{
  ℕ, ◌+◌, ◌≡◌, refl, Bool, true, Option, none, some, List, ◌∷◌, if-intro, arith, length,
  Option-cases, inl, inr,
}
use urx.Base.Int.{ℤ}
use urx.Base.Errors.{Error}
use urx.Lrux.Types.{Node, Cache}
use urx.Lrux.Cache.{find, erase, drop_expired, move_to_front, peek_promote, fresh_node, expire_time}
use urx.Lrux.Compute.{Clock, store, insert_locked, convert_miss_to_hit}
use urx.Lrux.Parts.{Part, promotes, counts_hit, counts_miss, converts, stores, part_step}
use urx.Lrux.Nodes.{IsEquality, count_all}
use urx.Lrux.Held.{erased-count}
use urx.Lrux.Bounds.{IsWithin, Shrinks-IsWithin, evict_one-IsWithin}

module _ {ℓ κ} {K : Type ℓ} {V : Type κ} (same : K → K → Bool) (eq : IsEquality same) where
  -- A found node is one of those it is found in.
  pub erased-length :
      (key : K) (n : Node K V) (ns : List (Node K V))
      → find same key ns ≡ some n
      → length (erase same n.key ns) + 1 ≡ length ns
  erased-length key n ns f = omega (
    arith,
    count_all ns,
    count_all (erase same n.key ns),
    erased-count (λ k v. true) same eq key n ns f,
  )

  pub peek_promote-IsWithin :
      (checked now : ℕ) (key : K) (c : Cache K V)
      → IsWithin c
      → IsWithin (peek_promote same checked now key c).0
  unfolding peek_promote
  peek_promote-IsWithin checked now key c w = elim (Option-cases (find same key c.nodes)) [
    | inl f ↦ rw (f, peek_promote) w
    | inr (n, f) ↦
        rw (f, peek_promote)
          (if-intro (λ (x : Cache K V × Option V). IsWithin x.0) _ _ _
            (Shrinks-IsWithin c (drop_expired same n c)
              (refl, omega (arith, erased-length key n c.nodes f)) w)
            (Shrinks-IsWithin c (move_to_front same (record n { accessed_at = now }) c)
              (refl, omega (arith, erased-length key n c.nodes f)) w))
  ]

  inserted-IsWithin :
      (zero_value : V) (now : ℕ) (key : K) (value : V) (ttl : ℤ) (c : Cache K V)
      → IsWithin c
      → IsWithin (insert_locked same zero_value now key value ttl c).0
  unfolding insert_locked
  inserted-IsWithin zero_value now key value ttl c w =
      let fresh = fresh_node same now key value (expire_time now ttl c) in
      if-intro (λ (x : Cache K V × V × Option Error). IsWithin x.0) c.closed _ _ w
        (evict_one-IsWithin (record c { nodes = fresh ∷ c.nodes }) (ground (arith, w)))

  dropped_expired-IsWithin :
      (key : K) (n : Node K V) (c : Cache K V)
      → find same key c.nodes ≡ some n
      → IsWithin c
      → IsWithin (drop_expired same n c)
  dropped_expired-IsWithin key n c f w =
      Shrinks-IsWithin c (drop_expired same n c)
        (refl, omega (arith, erased-length key n c.nodes f)) w

  stored-IsWithin :
      (zero_value : V) (t : Clock) (key : K) (value : V) (ttl : ℤ) (o : Option (Node K V))
      (c : Cache K V)
      → find same key c.nodes ≡ o
      → IsWithin c
      → IsWithin (store same zero_value t key value ttl o c).0
  unfolding store convert_miss_to_hit
  stored-IsWithin zero_value t key value ttl none c f w =
      inserted-IsWithin zero_value t.inserted key value ttl c w
  stored-IsWithin zero_value t key value ttl (some n) c f w =
      let fewer = dropped_expired-IsWithin key n c f w in
      if-intro (λ (x : Cache K V × V × Option Error). IsWithin x.0) _ _ _
        (if-intro (λ (x : Cache K V × V × Option Error). IsWithin x.0) c.closed _ _ fewer
          (inserted-IsWithin zero_value t.inserted key value ttl (drop_expired same n c) fewer))
        w

  pub part-IsWithin :
      (key : K) (part : Part V) (c : Cache K V) → IsWithin c → IsWithin (part_step same key part c)
  unfolding part_step convert_miss_to_hit
  part-IsWithin key (promotes checked now) c w = peek_promote-IsWithin checked now key c w
  part-IsWithin key counts_hit c w = w
  part-IsWithin key counts_miss c w = w
  part-IsWithin key converts c w = w
  part-IsWithin key (stores t value ttl) c w =
      stored-IsWithin value t key value ttl (find same key c.nodes) c refl w
