-- ===== src/Lrux/Evictions.antt =====
-- lrux/lrux.go: which entries give way to a new one, and to a smaller capacity.
use urx.Base.{
  ℕ, zero, suc, ◌≤◌, ◌<◌, ◌≡◌, inl, inr, refl, sym, ap, ◌∙◌, Bool, true, false, Option, none, some,
  List, [], ◌∷◌, ◌++◌, if◌then◌else◌, arith, length, length-append, take, take-all, take-append,
  if_true, if_false, ◌&&◌, Bool-cases, Option-cases,
}
use urx.Base.Int.{ℤ, pos}
use urx.Lrux.Types.{Node, by_capacity, EvictEvent, Cache, event_of, fire, count_eviction}
use urx.Lrux.Cache.{
  find, split_last, remove_tail, over_capacity, evict_one, evict_loop, resize, expire_time,
  set_with_ttl, set_found, fresh_node, nothing_left, has_event,
}
use urx.Lrux.Nodes.{IsEquality, split_last-append}
use urx.Lrux.Bounds.{over_length, nothing_left-nil}

split_last-cons {ℓ} : {A : Type ℓ} (xs : List A) (x : A) → split_last (xs ++ x ∷ []) ≡ some (xs, x)
split_last-cons [] x = refl
split_last-cons (y ∷ xs) x = rw (split_last-cons xs x, split_last)

module _ {ℓ κ} {K : Type ℓ} {V : Type κ} where
  remove_tail-take :
      (n : ℕ) (c : Cache K V) → n < length c.nodes → take n (remove_tail c).0.nodes ≡ take n c.nodes
  unfolding remove_tail
  remove_tail-take n c h = elim (Option-cases (split_last c.nodes)) [
    | inl e ↦ rw (e, remove_tail)
    | inr (x, e) ↦
        let whole = split_last-append c.nodes x.0 x.1 e in
        let long = ap length whole in
        rw (e, remove_tail)
          (sym (
            ap (take n) whole
            ∙ take-append n x.0 (x.1 ∷ []) (omega (arith, h, long, length-append x.0 (x.1 ∷ [])))))
  ]

  evict_loop-take :
      (breaks : Bool) (fuel : ℕ) (c : Cache K V)
      → 0 < c.capacity
      → length c.nodes ≤ fuel
      → (evict_loop breaks fuel c).0.nodes ≡ take c.capacity c.nodes
  unfolding evict_loop
  evict_loop-take breaks zero c p h = sym (take-all c.capacity c.nodes (omega (arith, h)))
  evict_loop-take breaks (suc fuel) c p h = elim (Bool-cases (over_capacity c)) [
    | inr o ↦ rw (o, evict_loop) (sym (take-all c.capacity c.nodes (ground (arith, o, p))))
    | inl o ↦
        let (e, l) = over_length c o in
        let t = remove_tail c in
        let event = has_event c.has_hook t.1 in
        let ih =
          evict_loop-take breaks fuel (count_eviction t.0) (omega (arith, p, e))
            (omega (arith, h, l)) in
        let goes_on : (breaks && nothing_left event t.0.nodes) ≡ false =
          elim (Bool-cases (nothing_left event t.0.nodes)) [
            | inr f ↦ ground (arith, f)
            | inl f ↦
                let empty = ap length (nothing_left-nil event t.0.nodes f) in
                absurd (ground (arith, o, p, l, empty))
          ] in
        rw (o, goes_on, evict_loop)
          (ih ∙ ap (λ k. take k t.0.nodes) e ∙ remove_tail-take c.capacity c (ground (arith, o)))
  ]

  -- `Resize` to a capacity above 0 keeps just the most recently used entries that fit, in their
  -- order.
  pub resize-take :
      (n : ℕ) (c : Cache K V)
      → c.closed ≡ false
      → (resize (pos (suc n)) c).nodes ≡ take (suc n) c.nodes
  unfolding resize
  resize-take n c e =
      let resized = record c { capacity = suc n } in
      let (c', events) = evict_loop true (length c.nodes) resized in
      ap (λ x. x.nodes) (if_false c.closed c (fire events c') e)
      ∙ evict_loop-take true (length c.nodes) resized (omega arith) (omega arith)

  pub remove_tail-closed : (c : Cache K V) → (remove_tail c).0.closed ≡ c.closed
  unfolding remove_tail
  remove_tail-closed c = elim (Option-cases (split_last c.nodes)) [
    | inl e ↦ rw (e, remove_tail) refl
    | inr (x, e) ↦ rw (e, remove_tail) refl
  ]

  pub evict_one-over :
      (c : Cache K V) (init : List (Node K V)) (last : Node K V)
      → over_capacity c ≡ true
      → split_last c.nodes ≡ some (init, last)
      → evict_one c
        ≡ fire (event_of by_capacity last ∷ []) (count_eviction (record c { nodes = init }))
  unfolding evict_one remove_tail
  evict_one-over c init last o e =
      let t = remove_tail c in
      let tail : t ≡ (record c { nodes = init }, event_of by_capacity last ∷ []) =
        rw (e, remove_tail) in
      if_true (over_capacity c) (fire t.1 (count_eviction t.0)) c o
      ∙ ap (λ (x : Cache K V × List (EvictEvent K V)). fire x.1 (count_eviction x.0)) tail

module _ {ℓ κ} {K : Type ℓ} {V : Type κ} (same : K → K → Bool) (eq : IsEquality same) where
  pub set_open :
      (now : ℕ) (key : K) (value : V) (ttl : ℤ) (c : Cache K V) (o : Option (Node K V))
      → c.closed ≡ false
      → find same key c.nodes ≡ o
      → set_with_ttl same now key value ttl c
        ≡ set_found same now key value (expire_time now ttl c) c o
  unfolding set_with_ttl
  set_open now key value ttl c o e f =
      let found = set_found same now key value (expire_time now ttl c) c in
      if_false c.closed c (found (find same key c.nodes)) e ∙ ap found f

  -- A new key in a cache that is full: it comes in front, and the entry at the end, the least
  -- recently used one, gives way and is reported to the callback, if there is one.
  pub set-full :
      (now : ℕ) (key : K) (value : V) (ttl : ℤ) (c : Cache K V) (init : List (Node K V))
      (last : Node K V)
      → c.closed ≡ false
      → find same key c.nodes ≡ none
      → c.nodes ≡ init ++ last ∷ []
      → c.capacity ≡ length c.nodes
      → let c' = set_with_ttl same now key value ttl c in
        (c'.nodes ≡ fresh_node same now key value (expire_time now ttl c) ∷ init)
        × (c'.fired ≡ (if c.has_hook then c.fired ++ event_of by_capacity last ∷ [] else c.fired))
  unfolding set_found
  set-full now key value ttl c init last e f w full =
      let n = fresh_node same now key value (expire_time now ttl c) in
      let c1 = record c { nodes = n ∷ c.nodes } in
      let over : over_capacity c1 ≡ true =
        ground (arith, full, ap length w, length-append init (last ∷ [])) in
      let split : split_last (n ∷ c.nodes) ≡ some (n ∷ init, last) =
        ap (λ k. split_last (n ∷ k)) w ∙ split_last-cons (n ∷ init) last in
      let whole =
        set_open now key value ttl c none e f ∙ evict_one-over c1 (n ∷ init) last over split in
      (ap (λ x. x.nodes) whole, ap (λ x. x.fired) whole)
