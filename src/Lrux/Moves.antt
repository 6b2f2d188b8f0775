-- ===== src/Lrux/Moves.antt =====
-- lrux/lrux.go: what each method does to the nodes.
use urx.Base.{
  ℕ, zero, suc, ◌≡◌, refl, subst, Bool, false, Option, none, some, List, [], ◌∷◌, if◌then◌else◌,
  if-intro, length, Bool-cases, Option-cases, inl, inr,
}
use mathlib.Core.List.{Sublistᴰ}
use urx.Base.Int.{ℤ, pos}
use urx.Lrux.Types.{Node, EvictEvent, Cache}
use urx.Lrux.Cache.{
  find, split_last, count_get, count_found, remove_tail, over_capacity, evict_one, evict_loop,
  expire_time, set_with_ttl, set_found, touch_found, peek_promote, touch, delete,
}
use urx.Lrux.Sweeps.{set_entry, set_entries, set_multi, delete_entries}
use urx.Lrux.Nodes.{IsEquality}
use urx.Lrux.Evolution.{
  sublist_refl, split_last-sublist, erase-sublist, missing-IsOther, erase-IsOther, IsDistinct,
  Evolves, drops, fronts, follows, Evolves-IsDistinct,
}

module _ {ℓ κ} {K : Type ℓ} {V : Type κ} where
  remove_tail-sublist : (c : Cache K V) → Sublistᴰ (remove_tail c).0.nodes c.nodes
  unfolding remove_tail
  remove_tail-sublist c = elim (Option-cases (split_last c.nodes)) [
    | inl e ↦ rw (e, remove_tail) (sublist_refl c.nodes)
    | inr (x, e) ↦ rw (e, remove_tail) (split_last-sublist c.nodes x.0 x.1 e)
  ]

module _ {ℓ κ} {K : Type ℓ} {V : Type κ} (same : K → K → Bool) (eq : IsEquality same) where
  pub evict_one-Evolves : (now : ℕ) (c : Cache K V) → Evolves same now c.nodes (evict_one c).nodes
  unfolding evict_one
  evict_one-Evolves now c = elim (Bool-cases (over_capacity c)) [
    | inl e ↦ rw (e, evict_one) (drops (remove_tail-sublist c))
    | inr e ↦ rw (e, evict_one) (drops (sublist_refl c.nodes))
  ]

  pub set-Evolves :
      (now : ℕ) (key : K) (value : V) (ttl : ℤ) (c : Cache K V)
      → IsDistinct same c.nodes
      → Evolves same now c.nodes (set_with_ttl same now key value ttl c).nodes
  unfolding set_with_ttl set_found
  set-Evolves now key value ttl c d = elim (Bool-cases c.closed) [
    | inl e ↦ rw (e, set_with_ttl) (drops (sublist_refl c.nodes))
    | inr e ↦ elim (Option-cases (find same key c.nodes)) [
      | inl f ↦
          rw (e, f, set_with_ttl, set_found)
            (follows
              (fronts
                (record {
                  key = key;
                  value = value;
                  created_at = now;
                  accessed_at = now;
                  expires_at = expire_time now ttl c;
                })
                refl (sublist_refl c.nodes) (missing-IsOther same key c.nodes f))
              (evict_one-Evolves now _))
      | inr (n, f) ↦
          rw (e, f, set_with_ttl, set_found)
            (fronts _ refl (erase-sublist same n.key c.nodes)
              (erase-IsOther same eq n.key c.nodes d))
    ]
  ]

  pub evict_loop-Evolves :
      (now : ℕ) (breaks : Bool) (fuel : ℕ) (c : Cache K V)
      → Evolves same now c.nodes (evict_loop breaks fuel c).0.nodes
  unfolding evict_loop
  evict_loop-Evolves now breaks zero c = drops (sublist_refl c.nodes)
  evict_loop-Evolves now breaks (suc fuel) c = elim (Bool-cases (over_capacity c)) [
    | inr e ↦ rw (e, evict_loop) (drops (sublist_refl c.nodes))
    | inl e ↦
        rw (e, evict_loop)
          (if-intro (λ (x : Cache K V × List (EvictEvent K V)). Evolves same now c.nodes x.0.nodes)
            _ _ _ (drops (remove_tail-sublist c))
            (follows (drops (remove_tail-sublist c)) (evict_loop-Evolves now breaks fuel _)))
  ]

  pub peek_promote-Evolves :
      (checked now : ℕ) (key : K) (c : Cache K V)
      → IsDistinct same c.nodes
      → Evolves same now c.nodes (peek_promote same checked now key c).0.nodes
  unfolding peek_promote
  peek_promote-Evolves checked now key c d = elim (Option-cases (find same key c.nodes)) [
    | inl f ↦ rw (f, peek_promote) (drops (sublist_refl c.nodes))
    | inr (n, f) ↦
        rw (f, peek_promote)
          (if-intro (λ (x : Cache K V × Option V). Evolves same now c.nodes x.0.nodes) _ _ _
            (drops (erase-sublist same n.key c.nodes))
            (fronts _ refl (erase-sublist same n.key c.nodes)
              (erase-IsOther same eq n.key c.nodes d)))
  ]

  pub count_get-nodes : (x : Cache K V × Option V) → x.0.nodes ≡ (count_get same x).0.nodes
  count_get-nodes (c, none) = refl
  count_get-nodes (c, some v) = refl

  pub count_found-nodes :
      (c : Cache K V) (o : Option (Node K V)) → c.nodes ≡ (count_found same c o).0.nodes
  count_found-nodes c none = refl
  count_found-nodes c (some n) = refl

  -- A closed cache stays as it is.
  pub if_open {ρ} :
      {B : Type ρ} (f : B → Cache K V) (now : ℕ) (c : Cache K V) (x y : B)
      → c.nodes ≡ (f x).nodes
      → Evolves same now c.nodes (f y).nodes
      → Evolves same now c.nodes (f (if c.closed then x else y)).nodes
  if_open f now c x y e v =
      if-intro (λ z. Evolves same now c.nodes (f z).nodes) c.closed x y
        (subst (Evolves same now c.nodes) e (drops (sublist_refl c.nodes))) v

  pub touch-Evolves :
      (checked now : ℕ) (key : K) (c : Cache K V)
      → IsDistinct same c.nodes
      → Evolves same now c.nodes (touch same checked now key c).0.nodes
  unfolding touch touch_found
  touch-Evolves checked now key c d = elim (Bool-cases c.closed) [
    | inl e ↦ rw (e, touch) (drops (sublist_refl c.nodes))
    | inr e ↦ elim (Option-cases (find same key c.nodes)) [
      | inl f ↦ rw (e, f, touch, touch_found) (drops (sublist_refl c.nodes))
      | inr (n, f) ↦
          rw (e, f, touch, touch_found)
            (if-intro (λ (x : Cache K V × Bool). Evolves same now c.nodes x.0.nodes) _ _ _
              (drops (erase-sublist same n.key c.nodes))
              (fronts _ refl (erase-sublist same n.key c.nodes)
                (erase-IsOther same eq n.key c.nodes d)))
    ]
  ]

  pub delete-Evolves :
      (now : ℕ) (key : K) (c : Cache K V) → Evolves same now c.nodes (delete same key c).0.nodes
  unfolding delete
  delete-Evolves now key c = elim (Bool-cases c.closed) [
    | inl e ↦ rw (e, delete) (drops (sublist_refl c.nodes))
    | inr e ↦ elim (Option-cases (find same key c.nodes)) [
      | inl f ↦ rw (e, f, delete) (drops (sublist_refl c.nodes))
      | inr (n, f) ↦ rw (e, f, delete) (drops (erase-sublist same n.key c.nodes))
    ]
  ]

  pub delete_entries-Evolves :
      (now : ℕ) (ks : List K) (c : Cache K V)
      → Evolves same now c.nodes (delete_entries same ks c).0.nodes
  delete_entries-Evolves now [] c = drops (sublist_refl c.nodes)
  delete_entries-Evolves now (key ∷ ks) c = elim (Option-cases (find same key c.nodes)) [
    | inl f ↦ rw (f, delete_entries) (delete_entries-Evolves now ks c)
    | inr (n, f) ↦
        rw (f, delete_entries)
          (follows (drops (erase-sublist same n.key c.nodes)) (delete_entries-Evolves now ks _))
  ]

  set_entry-Evolves :
      (now : ℕ) (expires : Option ℕ) (key : K) (value : V) (c : Cache K V)
      → IsDistinct same c.nodes
      → Evolves same now c.nodes (set_entry same now expires key value c).0.nodes
  unfolding set_entry
  set_entry-Evolves now expires key value c d = elim (Option-cases (find same key c.nodes)) [
    | inl f ↦
        rw (f, set_entry)
          (fronts
            (record {
              key = key;
              value = value;
              created_at = now;
              accessed_at = now;
              expires_at = expires;
            })
            refl (sublist_refl c.nodes) (missing-IsOther same key c.nodes f))
    | inr (n, f) ↦
        rw (f, set_entry)
          (fronts _ refl (erase-sublist same n.key c.nodes) (erase-IsOther same eq n.key c.nodes d))
  ]

  set_entries-Evolves :
      (now : ℕ) (expires : Option ℕ) (items : List (K × V)) (c : Cache K V)
      → IsDistinct same c.nodes
      → Evolves same now c.nodes (set_entries same now expires items c).0.nodes
  unfolding set_entries
  set_entries-Evolves now expires [] c d = drops (sublist_refl c.nodes)
  set_entries-Evolves now expires ((key, value) ∷ items) c d =
      let first = set_entry-Evolves now expires key value c d in
      follows first (set_entries-Evolves now expires items _ (Evolves-IsDistinct same now first d))

  pub set_multi-Evolves :
      (now : ℕ) (items : List (K × V)) (c : Cache K V)
      → IsDistinct same c.nodes
      → Evolves same now c.nodes (set_multi same now items c).nodes
  unfolding set_multi
  set_multi-Evolves now items c d =
      let multi = set_entries same now (expire_time now (pos 0) c) items c in
      if_open (λ x. x) now c c _ refl
        (follows (set_entries-Evolves now (expire_time now (pos 0) c) items c d)
          (evict_loop-Evolves now false (length multi.0.nodes) multi.0))
