-- ===== src/Lrux/Closing.antt =====
-- lrux/lrux.go and compute.go: a closed cache is empty.
use urx.Base.{
  ℕ, zero, suc, ◌≡◌, ◌⊎◌, inl, inr, refl, ◌∙◌, Bool, true, false, Option, none, some, List, [], ◌∷◌,
  if◌then◌else◌, if-intro, length, Bool-cases, Option-cases,
}
use urx.Base.Int.{ℤ, pos, pos_part}
use urx.Base.Errors.{Error}
use urx.Lrux.Types.{Node, EvictEvent, Cache, count_eviction, is_expired}
use urx.Lrux.Cache.{
  find, erase, remove_tail, over_capacity, evict_one, evict_loop, expire_time, set_with_ttl,
  set_found, fresh_node, touch_found, peek_promote, peek, touch, delete, get, get_fast, resize,
  count_get, count_found, split_last, drop_expired,
}
use urx.Lrux.Compute.{Clock, store, insert_locked}
use urx.Lrux.Parts.{Part, promotes, counts_hit, counts_miss, converts, stores, part_step}
use urx.Lrux.Sweeps.{
  set_entry, set_entries, set_multi, delete_entries, delete_multi, sweep, range, clear, close,
  reset_stats,
}
use urx.Lrux.Ops.{
  CacheOp, op_set, op_get, op_get_fast, op_touch, op_delete, op_delete_multi, op_set_multi,
  op_resize, op_sweep, op_range, op_part, op_clear, op_close, op_reset_stats, step,
}

module _ {ℓ κ} {K : Type ℓ} {V : Type κ} where
  abbrev pub IsDrained : Cache K V → Type (ℓ ⊔ κ)
  IsDrained c = (c.closed ≡ false) ⊎ (c.nodes ≡ [])

  remove_tail-closed : (c : Cache K V) → (remove_tail c).0.closed ≡ c.closed
  unfolding remove_tail
  remove_tail-closed c = elim (Option-cases (split_last c.nodes)) [
    | inl e ↦ rw (e, remove_tail) refl
    | inr (x, e) ↦ rw (e, remove_tail) refl
  ]

  evict_one-closed : (c : Cache K V) → (evict_one c).closed ≡ c.closed
  unfolding evict_one
  evict_one-closed c =
      if-intro (λ (x : Cache K V). x.closed ≡ c.closed) (over_capacity c) _ _ (remove_tail-closed c)
        refl

  evict_loop-closed :
      (breaks : Bool) (fuel : ℕ) (c : Cache K V) → (evict_loop breaks fuel c).0.closed ≡ c.closed
  unfolding evict_loop
  evict_loop-closed breaks zero c = refl
  evict_loop-closed breaks (suc fuel) c =
      let tail = remove_tail-closed c in
      let rest = evict_loop-closed breaks fuel (count_eviction (remove_tail c).0) in
      if-intro (λ (x : Cache K V × List (EvictEvent K V)). x.0.closed ≡ c.closed) (over_capacity c)
        _ _
        (if-intro (λ (x : Cache K V × List (EvictEvent K V)). x.0.closed ≡ c.closed) _ _ _ tail
          (rest ∙ tail))
        refl

  -- An operation that a closed cache refuses, and that leaves an open one open.
  guarded-IsDrained {ρ} :
      {B : Type ρ} (f : B → Cache K V) (c : Cache K V) (x y : B)
      → IsDrained (f x)
      → (f y).closed ≡ c.closed
      → IsDrained (f (if c.closed then x else y))
  guarded-IsDrained f c x y d k = elim (Bool-cases c.closed) [
    | inl e ↦ rw e d
    | inr e ↦ rw e (inl (k ∙ e))
  ]

  module _ (same : K → K → Bool) where
    set_found-closed :
        (now : ℕ) (key : K) (value : V) (expires : Option ℕ) (c : Cache K V) (o : Option (Node K V))
        → (set_found same now key value expires c o).closed ≡ c.closed
    unfolding set_found
    set_found-closed now key value expires c none =
        evict_one-closed (record c { nodes = fresh_node same now key value expires ∷ c.nodes })
    set_found-closed now key value expires c (some n) = refl

    peek_promote-closed :
        (checked now : ℕ) (key : K) (c : Cache K V)
        → (peek_promote same checked now key c).0.closed ≡ c.closed
    unfolding peek_promote
    peek_promote-closed checked now key c = elim (Option-cases (find same key c.nodes)) [
      | inl f ↦ rw (f, peek_promote) refl
      | inr (n, f) ↦
          rw (f, peek_promote)
            (if-intro (λ (x : Cache K V × Option V). x.0.closed ≡ c.closed) _ _ _ refl refl)
    ]

    count_get-closed : (x : Cache K V × Option V) → (count_get same x).0.closed ≡ x.0.closed
    count_get-closed (c, none) = refl
    count_get-closed (c, some v) = refl

    count_found-closed :
        (c : Cache K V) (o : Option (Node K V)) → (count_found same c o).0.closed ≡ c.closed
    count_found-closed c none = refl
    count_found-closed c (some n) = refl

    touch_found-closed :
        (checked now : ℕ) (c : Cache K V) (o : Option (Node K V))
        → (touch_found same checked now c o).0.closed ≡ c.closed
    unfolding touch_found
    touch_found-closed checked now c none = refl
    touch_found-closed checked now c (some n) =
        if-intro (λ (x : Cache K V × Bool). x.0.closed ≡ c.closed) _ _ _ refl refl

    set_entry-closed :
        (now : ℕ) (expires : Option ℕ) (key : K) (value : V) (c : Cache K V)
        → (set_entry same now expires key value c).0.closed ≡ c.closed
    unfolding set_entry
    set_entry-closed now expires key value c = elim (Option-cases (find same key c.nodes)) [
      | inl f ↦ rw (f, set_entry) refl
      | inr (n, f) ↦ rw (f, set_entry) refl
    ]

    set_entries-closed :
        (now : ℕ) (expires : Option ℕ) (items : List (K × V)) (c : Cache K V)
        → (set_entries same now expires items c).0.closed ≡ c.closed
    unfolding set_entries
    set_entries-closed now expires [] c = refl
    set_entries-closed now expires ((key, value) ∷ items) c =
        set_entries-closed now expires items (set_entry same now expires key value c).0
        ∙ set_entry-closed now expires key value c

    delete_entries-closed :
        (ks : List K) (c : Cache K V) → (delete_entries same ks c).0.closed ≡ c.closed
    delete_entries-closed [] c = refl
    delete_entries-closed (key ∷ ks) c = elim (Option-cases (find same key c.nodes)) [
      | inl f ↦ rw (f, delete_entries) (delete_entries-closed ks c)
      | inr (n, f) ↦
          rw (f, delete_entries)
            (delete_entries-closed ks (record c { nodes = erase same n.key c.nodes }))
    ]

    insert_locked-closed :
        (zero_value : V) (now : ℕ) (key : K) (value : V) (ttl : ℤ) (c : Cache K V)
        → (insert_locked same zero_value now key value ttl c).0.closed ≡ c.closed
    unfolding insert_locked
    insert_locked-closed zero_value now key value ttl c =
        if-intro (λ (x : Cache K V × V × Option Error). x.0.closed ≡ c.closed) c.closed _ _ refl
          (evict_one-closed
            (record c { nodes = fresh_node same now key value (expire_time now ttl c) ∷ c.nodes }))

    store-closed :
        (zero_value : V) (t : Clock) (key : K) (value : V) (ttl : ℤ) (o : Option (Node K V))
        (c : Cache K V)
        → (store same zero_value t key value ttl o c).0.closed ≡ c.closed
    unfolding store
    store-closed zero_value t key value ttl none c =
        insert_locked-closed zero_value t.inserted key value ttl c
    store-closed zero_value t key value ttl (some n) c =
        if-intro (λ (x : Cache K V × V × Option Error). x.0.closed ≡ c.closed)
          (is_expired t.last_checked n) _ _
          (if-intro (λ (x : Cache K V × V × Option Error). x.0.closed ≡ c.closed) c.closed _ _ refl
            (insert_locked-closed zero_value t.inserted key value ttl (drop_expired same n c)))
          refl

    part-closed :
        (key : K) (part : Part V) (c : Cache K V) → (part_step same key part c).closed ≡ c.closed
    unfolding part_step
    part-closed key (promotes checked now) c = peek_promote-closed checked now key c
    part-closed key counts_hit c = refl
    part-closed key counts_miss c = refl
    part-closed key converts c = refl
    part-closed key (stores t value ttl) c =
        store-closed value t key value ttl (find same key c.nodes) c

    -- On a closed cache without nodes no part stores one.
    part-empty :
        (key : K) (part : Part V) (c : Cache K V)
        → c.closed ≡ true
        → c.nodes ≡ []
        → (part_step same key part c).nodes ≡ []
    unfolding part_step peek_promote store insert_locked
    part-empty key (promotes checked now) c s n = rw (n, peek_promote) refl
    part-empty key counts_hit c s n = n
    part-empty key counts_miss c s n = n
    part-empty key converts c s n = n
    part-empty key (stores t value ttl) c s n = rw (n, store, insert_locked, s) refl

    pub step-IsDrained :
        (op : CacheOp K V) (c : Cache K V) → IsDrained c → IsDrained (step same op c)
    unfolding step set_with_ttl get get_fast touch delete delete_multi set_multi resize sweep range
        clear close reset_stats
    step-IsDrained (op_set now key value ttl) c d =
        guarded-IsDrained (λ x. x) c c _ d
          (set_found-closed now key value (expire_time now ttl c) c (find same key c.nodes))
    step-IsDrained (op_get checked now key) c d =
        guarded-IsDrained (λ (x : Cache K V × Option V). x.0) c (c, none) _ d
          (count_get-closed (peek_promote same checked now key c)
            ∙ peek_promote-closed checked now key c)
    step-IsDrained (op_get_fast checked key) c d =
        guarded-IsDrained (λ (x : Cache K V × Option V). x.0) c (c, none) _ d
          (count_found-closed c (peek same checked key c))
    step-IsDrained (op_touch checked now key) c d =
        guarded-IsDrained (λ (x : Cache K V × Bool). x.0) c (c, false) _ d
          (touch_found-closed checked now c (find same key c.nodes))
    step-IsDrained (op_delete key) c d =
        guarded-IsDrained (λ (x : Cache K V × Bool). x.0) c (c, false) _ d
          (elim (Option-cases (find same key c.nodes)) [
            | inl f ↦ rw f refl
            | inr (n, f) ↦ rw f refl
          ])
    step-IsDrained (op_delete_multi ks) c d =
        guarded-IsDrained (λ (x : Cache K V × ℕ). x.0) c (c, 0) _ d (delete_entries-closed ks c)
    step-IsDrained (op_set_multi now items) c d =
        let sets = (set_entries same now (expire_time now (pos 0) c) items c).0 in
        guarded-IsDrained (λ x. x) c c _ d
          (evict_loop-closed false (length sets.nodes) sets
            ∙ set_entries-closed now (expire_time now (pos 0) c) items c)
    step-IsDrained (op_resize capacity) c d =
        guarded-IsDrained (λ x. x) c c _ d
          (evict_loop-closed true (length c.nodes) (record c { capacity = pos_part capacity }))
    step-IsDrained (op_sweep clock) c d = guarded-IsDrained (λ x. x) c c _ d refl
    step-IsDrained (op_range fn clock) c d =
        guarded-IsDrained (λ (x : Cache K V × List (Node K V)). x.0) c (c, []) _ d refl
    step-IsDrained (op_part key part) c (inl o) = inl (part-closed key part c ∙ o)
    step-IsDrained (op_part key part) c (inr n) = elim (Bool-cases c.closed) [
      | inl s ↦ inr (part-empty key part c s n)
      | inr o ↦ inl (part-closed key part c ∙ o)
    ]
    step-IsDrained op_clear c d = guarded-IsDrained (λ x. x) c c _ d refl
    step-IsDrained op_close c d = if-intro IsDrained c.closed c _ d (inr refl)
    step-IsDrained op_reset_stats c d = d
