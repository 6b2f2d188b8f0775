-- ===== src/Lrux/Insertions.antt =====
-- lrux/compute.go: what the parts of `GetOrCompute` do to the values and the order.
use urx.Base.{
  ℕ, ◌≡◌, inl, inr, refl, sym, subst, Bool, true, false, Option, none, some, [], ◌∷◌, if◌then◌else◌,
  if-cases, if_false, arith, Bool-cases,
}
use urx.Base.Int.{ℤ}
use urx.Base.Errors.{Error, sentinel, lrux, closed}
use urx.Lrux.Types.{Node, Cache, is_expired, by_expiry, count_eviction}
use urx.Lrux.Cache.{find, erase, evict_one, expire_time, fresh_node, drop_expired, peek_promote}
use urx.Lrux.Compute.{Clock, failed, store, insert_locked, convert_miss_to_hit}
use urx.Lrux.Parts.{Part, promotes, counts_hit, counts_miss, converts, stores, part_step}
use urx.Lrux.Nodes.{IsEquality, find_key, one_if}
use urx.Lrux.Held.{Adds, evict_one-Adds}
use urx.Lrux.Reports.{peek_promote-Adds, removed-Adds, unguarded}
use urx.Lrux.Ops.{op_part, access_time}
use urx.Lrux.Closing.{IsDrained}
use urx.Lrux.Evolution.{
  sublist_refl, erase-sublist, missing-IsOther, erase-IsOther, IsDistinct, IsOther, Evolves, drops,
  fronts, follows,
}
use urx.Lrux.Moves.{evict_one-Evolves, peek_promote-Evolves}

module _ {ℓ κ} {K : Type ℓ} {V : Type κ} (same : K → K → Bool) where
  -- The last look finds the key missing or expired.
  abbrev pub is_missing : ℕ → Option (Node K V) → Bool
  is_missing checked none = true
  is_missing checked (some n) = is_expired checked n

  -- An open cache takes the new node.
  insert_open :
      (zero_value : V) (now : ℕ) (key : K) (value : V) (ttl : ℤ) (c : Cache K V)
      → c.closed ≡ false
      → (insert_locked same zero_value now key value ttl c).0
        ≡ evict_one
            (record c { nodes = fresh_node same now key value (expire_time now ttl c) ∷ c.nodes })
  unfolding insert_locked
  insert_open zero_value now key value ttl c s = rw s refl

  -- What the last look comes to on an open cache.
  store_open {μ} :
      (P : Cache K V → Type μ) (zero_value : V) (t : Clock) (key : K) (value : V) (ttl : ℤ)
      (o : Option (Node K V)) (c : Cache K V)
      → c.closed ≡ false
      → (o ≡ none → P (insert_locked same zero_value t.inserted key value ttl c).0)
      → ((n : Node K V)
          → o ≡ some n
          → is_expired t.last_checked n ≡ true
          → P (insert_locked same zero_value t.inserted key value ttl (drop_expired same n c)).0)
      → ((n : Node K V)
          → o ≡ some n
          → is_expired t.last_checked n ≡ false
          → P (convert_miss_to_hit c))
      → P (store same zero_value t key value ttl o c).0
  unfolding store
  store_open P zero_value t key value ttl none c s missing expired live = missing refl
  store_open P zero_value t key value ttl (some n) c s missing expired live =
      if-cases (λ (x : Cache K V × V × Option Error). P x.0) (is_expired t.last_checked n) _
        (convert_miss_to_hit c, n.value, none)
        (λ e.
          subst (λ (x : Cache K V × V × Option Error). P x.0)
            (sym (
              if_false c.closed
                (failed same zero_value (sentinel lrux closed)
                  (count_eviction (record c { nodes = erase same n.key c.nodes })))
                (insert_locked same zero_value t.inserted key value ttl (drop_expired same n c)) s))
            (expired n refl e))
        (λ e. live n refl e)

  -- On a closed cache, which is empty, nothing is stored.
  store_shut :
      (zero_value : V) (t : Clock) (key : K) (value : V) (ttl : ℤ) (c : Cache K V)
      → c.closed ≡ true
      → c.nodes ≡ []
      → (store same zero_value t key value ttl (find same key c.nodes) c).0 ≡ c
  unfolding store insert_locked
  store_shut zero_value t key value ttl c s n =
      subst (λ ns. (store same zero_value t key value ttl (find same key ns) c).0 ≡ c) (sym n)
        (rw s refl)

module _ {ℓ κ} {K : Type ℓ} {V : Type κ} (p : K → V → Bool) (same : K → K → Bool)
    (eq : IsEquality same) where
  inserted-Adds :
      (zero_value : V) (now : ℕ) (key : K) (value : V) (ttl : ℤ) (c : Cache K V)
      → c.closed ≡ false
      → c.has_hook ≡ true
      → Adds p (one_if (p key value)) c (insert_locked same zero_value now key value ttl c).0
  inserted-Adds zero_value now key value ttl c s h =
      subst (Adds p (one_if (p key value)) c)
        (sym (insert_open same zero_value now key value ttl c s))
        (evict_one-Adds p (one_if (p key value)) c _ h (ground arith, refl, refl))

  -- How many of the values that pass the test a part stores.
  abbrev pub part_stored : K → Part V → Cache K V → ℕ
  part_stored key (stores t value ttl) c =
      if is_missing same t.last_checked (find same key c.nodes) then one_if (p key value) else 0
  part_stored key _ c = 0

  stored-Adds :
      (t : Clock) (key : K) (value : V) (ttl : ℤ) (c : Cache K V)
      → c.closed ≡ false
      → c.has_hook ≡ true
      → Adds p
          (part_stored key (stores t value ttl) c)
          c
          (store same value t key value ttl (find same key c.nodes) c).0
  unfolding convert_miss_to_hit
  stored-Adds t key value ttl c s h =
      store_open same (λ c'. Adds p (part_stored key (stores t value ttl) c) c c') value t key value
        ttl (find same key c.nodes) c s
        (λ f. rw f (inserted-Adds value t.inserted key value ttl c s h))
        (λ n f e.
          let (gone, still) = removed-Adds p same eq by_expiry key n c h f in
          let (come, hook) =
            inserted-Adds value t.inserted key value ttl (drop_expired same n c) s still in
          rw (f, e) (omega (arith, gone, come), hook))
        (λ n f e. rw (f, e) (omega arith, h))

  pub part-Adds :
      (key : K) (part : Part V) (c : Cache K V)
      → IsDrained c
      → c.has_hook ≡ true
      → Adds p (if c.closed then 0 else part_stored key part c) c (part_step same key part c)
  unfolding part_step convert_miss_to_hit
  part-Adds key (promotes checked now) c d h =
      unguarded p same eq c.closed c (peek_promote same checked now key c).0
        (peek_promote-Adds p same eq checked now key c h)
  part-Adds key counts_hit c d h =
      unguarded p same eq c.closed c (part_step {V = V} same key counts_hit c) (omega arith, h)
  part-Adds key counts_miss c d h =
      unguarded p same eq c.closed c (part_step {V = V} same key counts_miss c) (omega arith, h)
  part-Adds key converts c d h =
      unguarded p same eq c.closed c (part_step {V = V} same key converts c) (omega arith, h)
  part-Adds key (stores t value ttl) c d h = elim (Bool-cases c.closed) [
    | inr s ↦
        subst (λ k. Adds p k c (store same value t key value ttl (find same key c.nodes) c).0)
          (sym (if_false c.closed 0 (part_stored key (stores t value ttl) c) s))
          (stored-Adds t key value ttl c s h)
    | inl s ↦
        let empty : c.nodes ≡ [] = elim d [ inl o ↦ absurd cc | inr n ↦ n ] in
        subst (λ c'. Adds p (if c.closed then 0 else part_stored key (stores t value ttl) c) c c')
          (sym (store_shut same value t key value ttl c s empty)) (rw s (omega arith), h)
  ]

module _ {ℓ κ} {K : Type ℓ} {V : Type κ} (same : K → K → Bool) (eq : IsEquality same) where
  inserted-Evolves :
      (zero_value : V) (now : ℕ) (key : K) (value : V) (ttl : ℤ) (c : Cache K V)
      → c.closed ≡ false
      → find same key c.nodes ≡ none
      → Evolves same now c.nodes (insert_locked same zero_value now key value ttl c).0.nodes
  inserted-Evolves zero_value now key value ttl c s f =
      let fresh = fresh_node same now key value (expire_time now ttl c) in
      subst (λ (c' : Cache K V). Evolves same now c.nodes c'.nodes)
        (sym (insert_open same zero_value now key value ttl c s))
        (follows (fronts fresh refl (sublist_refl c.nodes) (missing-IsOther same key c.nodes f))
          (evict_one-Evolves same eq now (record c { nodes = fresh ∷ c.nodes })))

  -- The expired node goes, and a new one with its key comes to the front.
  renewed-Evolves :
      (zero_value : V) (now : ℕ) (key : K) (value : V) (ttl : ℤ) (n : Node K V) (c : Cache K V)
      → c.closed ≡ false
      → IsDistinct same c.nodes
      → find same key c.nodes ≡ some n
      → Evolves same now c.nodes
          (insert_locked same zero_value now key value ttl (drop_expired same n c)).0.nodes
  renewed-Evolves zero_value now key value ttl n c s d f =
      let fresh = fresh_node same now key value (expire_time now ttl (drop_expired same n c)) in
      subst (λ (c' : Cache K V). Evolves same now c.nodes c'.nodes)
        (sym (insert_open same zero_value now key value ttl (drop_expired same n c) s))
        (follows
          (fronts fresh refl (erase-sublist same n.key c.nodes) (
            subst (λ k. IsOther same k (erase same n.key c.nodes))
              (find_key same eq key c.nodes n f) (erase-IsOther same eq n.key c.nodes d)))
          (evict_one-Evolves same eq now
            (record (drop_expired same n c) { nodes = fresh ∷ erase same n.key c.nodes })))

  pub part-Evolves :
      (key : K) (part : Part V) (before : ℕ) (c : Cache K V)
      → IsDrained c
      → IsDistinct same c.nodes
      → Evolves same
          (access_time (op_part key part) before)
          c.nodes
          (part_step same key part c).nodes
  unfolding part_step convert_miss_to_hit
  part-Evolves key (promotes checked now) before c d i =
      peek_promote-Evolves same eq checked now key c i
  part-Evolves key counts_hit before c d i = drops (sublist_refl c.nodes)
  part-Evolves key counts_miss before c d i = drops (sublist_refl c.nodes)
  part-Evolves key converts before c d i = drops (sublist_refl c.nodes)
  part-Evolves key (stores t value ttl) before c d i = elim (Bool-cases c.closed) [
    | inr s ↦
        store_open same (λ c'. Evolves same t.inserted c.nodes c'.nodes) value t key value ttl
          (find same key c.nodes) c s (inserted-Evolves value t.inserted key value ttl c s)
          (λ n f e. renewed-Evolves value t.inserted key value ttl n c s i f)
          (λ n f e. drops (sublist_refl c.nodes))
    | inl s ↦
        let empty : c.nodes ≡ [] = elim d [ inl o ↦ absurd cc | inr n ↦ n ] in
        subst (λ (c' : Cache K V). Evolves same t.inserted c.nodes c'.nodes)
          (sym (store_shut same value t key value ttl c s empty)) (drops (sublist_refl c.nodes))
  ]
