-- ===== src/Lrux/Reports.antt =====
-- lrux/lrux.go: each method moves values between the nodes and the reports, and loses none.
use urx.Base.{
  ℕ, ◌+◌, ◌≡◌, refl, ap, ◌∙◌, Bool, true, false, Option, none, some, List, [], ◌∷◌, ◌++◌, map,
  if◌then◌else◌, if-intro, arith, length, Option-cases, inl, inr,
}
use urx.Base.Int.{ℤ, pos}
use urx.Lrux.Types.{
  Node, EvictionReason, by_expiry, by_clear, by_delete, by_replace, Cache, event_of, fire,
}
use urx.Lrux.Cache.{
  find, erase, expire_time, set_with_ttl, set_found, fresh_node, touch_found, peek_promote, touch,
  delete, evict_loop, move_to_front, remove_node, count_get, count_found, slide_expiration,
}
use urx.Lrux.Sweeps.{set_entries, set_multi}
use urx.Lrux.Nodes.{IsEquality, find_key, one_if, count_if-append}
use urx.Lrux.Held.{
  in_nodes, in_events, Adds, fire-Adds, events-count, evict_one-Adds, evict_loop-Keeps,
  erased-count, set_entries-Keeps, in_items,
}

module _ {ℓ κ} {K : Type ℓ} {V : Type κ} (p : K → V → Bool) (same : K → K → Bool)
    (eq : IsEquality same) where
  -- A closed cache stays as it is.
  pub guarded {ρ} :
      {B : Type ρ} (f : B → Cache K V) (b : Bool) (k : ℕ) (c : Cache K V) (x y : B)
      → Adds p 0 c (f x)
      → Adds p k c (f y)
      → Adds p (if b then 0 else k) c (f (if b then x else y))
  guarded f true k c x y u v = u
  guarded f false k c x y u v = v

  pub unguarded : (b : Bool) (c c' : Cache K V) → Adds p 0 c c' → Adds p (if b then 0 else 0) c c'
  unguarded true c c' a = a
  unguarded false c c' a = a

  pub same-Adds : (c : Cache K V) → c.has_hook ≡ true → Adds p 0 c c
  same-Adds c h = (omega arith, h)

  -- A new entry, or a new value for a key that has one, by what the key had.
  set_found-Adds :
      (now : ℕ) (key : K) (value : V) (expires : Option ℕ) (c : Cache K V) (o : Option (Node K V))
      → find same key c.nodes ≡ o
      → c.has_hook ≡ true
      → Adds p (one_if (p key value)) c (set_found same now key value expires c o)
  unfolding set_found
  set_found-Adds now key value expires c none f h =
      evict_one-Adds p (one_if (p key value)) c
        (record c { nodes = fresh_node same now key value expires ∷ c.nodes }) h
        (ground arith, refl, refl)
  set_found-Adds now key value expires c (some n) f h =
      fire-Adds p (one_if (p key value)) c
        (move_to_front same (record n { value = value; accessed_at = now; expires_at = expires }) c)
        (event_of by_replace n ∷ []) h
        (
          ground (
            arith,
            erased-count p same eq key n c.nodes f,
            ap (λ k. one_if (p k value)) (find_key same eq key c.nodes n f),
          ),
          refl,
          refl,
        )

  pub set-Adds :
      (now : ℕ) (key : K) (value : V) (ttl : ℤ) (c : Cache K V)
      → c.has_hook ≡ true
      → Adds p
          (if c.closed then 0 else one_if (p key value))
          c
          (set_with_ttl same now key value ttl c)
  unfolding set_with_ttl
  set-Adds now key value ttl c h =
      guarded (λ x. x) c.closed (one_if (p key value)) c c _ (same-Adds c h)
        (set_found-Adds now key value (expire_time now ttl c) c (find same key c.nodes) refl h)

  pub removed-Adds :
      (why : EvictionReason) (key : K) (n : Node K V) (c : Cache K V)
      → c.has_hook ≡ true
      → find same key c.nodes ≡ some n
      → Adds p 0 c (remove_node same n why c)
  removed-Adds why key n c h f =
      fire-Adds p 0 c (record c { nodes = erase same n.key c.nodes }) (event_of why n ∷ []) h
        (ground (arith, erased-count p same eq key n c.nodes f), refl, refl)

  -- A node that keeps its key and value moves to the front.
  pub moved-Adds :
      (key : K) (n : Node K V) (accessed : ℕ) (expires : Option ℕ) (c : Cache K V)
      → c.has_hook ≡ true
      → find same key c.nodes ≡ some n
      → Adds p 0 c
          (move_to_front same (record n { accessed_at = accessed; expires_at = expires }) c)
  moved-Adds key n accessed expires c h f =
      (ground (arith, erased-count p same eq key n c.nodes f), h)

  pub peek_promote-Adds :
      (checked now : ℕ) (key : K) (c : Cache K V)
      → c.has_hook ≡ true
      → Adds p 0 c (peek_promote same checked now key c).0
  unfolding peek_promote
  peek_promote-Adds checked now key c h = elim (Option-cases (find same key c.nodes)) [
    | inl f ↦ rw (f, peek_promote) (same-Adds c h)
    | inr (n, f) ↦
        rw (f, peek_promote)
          (if-intro (λ (x : Cache K V × Option V). Adds p 0 c x.0) _ _ _
            (removed-Adds by_expiry key n c h f) (moved-Adds key n now n.expires_at c h f))
  ]

  pub count_get-Adds :
      (c : Cache K V) (x : Cache K V × Option V) → Adds p 0 c x.0 → Adds p 0 c (count_get same x).0
  count_get-Adds c (c', none) a = a
  count_get-Adds c (c', some v) a = a

  pub count_found-Adds :
      (c : Cache K V) (o : Option (Node K V))
      → c.has_hook ≡ true
      → Adds p 0 c (count_found same c o).0
  count_found-Adds c none h = same-Adds c h
  count_found-Adds c (some n) h = same-Adds c h

  pub touch-Adds :
      (checked now : ℕ) (key : K) (c : Cache K V)
      → c.has_hook ≡ true
      → Adds p (if c.closed then 0 else 0) c (touch same checked now key c).0
  unfolding touch touch_found
  touch-Adds checked now key c h =
      guarded (λ (x : Cache K V × Bool). x.0) c.closed 0 c (c, false) _ (same-Adds c h)
        (elim (Option-cases (find same key c.nodes)) [
          | inl f ↦ rw f (same-Adds c h)
          | inr (n, f) ↦ rw f (
              if-intro (λ (x : Cache K V × Bool). Adds p 0 c x.0) _ _ _
                (removed-Adds by_expiry key n c h f)
                (moved-Adds key n now (slide_expiration c.ttl now n) c h f))
        ])

  pub delete-Adds :
      (key : K) (c : Cache K V)
      → c.has_hook ≡ true
      → Adds p (if c.closed then 0 else 0) c (delete same key c).0
  unfolding delete
  delete-Adds key c h =
      guarded (λ (x : Cache K V × Bool). x.0) c.closed 0 c (c, false) _ (same-Adds c h)
        (elim (Option-cases (find same key c.nodes)) [
          | inl f ↦ rw f (same-Adds c h)
          | inr (n, f) ↦ rw f (removed-Adds by_delete key n c h f)
        ])

  pub set_multi-Adds :
      (now : ℕ) (items : List (K × V)) (c : Cache K V)
      → c.has_hook ≡ true
      → Adds p (if c.closed then 0 else in_items p items) c (set_multi same now items c)
  unfolding set_multi
  set_multi-Adds now items c h =
      let sets = set_entries same now (expire_time now (pos 0) c) items c in
      let (e, d, f) = set_entries-Keeps p same eq now (expire_time now (pos 0) c) items c in
      let rest = evict_loop false (length sets.0.nodes) sets.0 in
      let (e2, d2, f2) = evict_loop-Keeps p false (length sets.0.nodes) sets.0 (d ∙ h) in
      let joined = count_if-append (λ x. p x.key x.value) sets.1 rest.1 in
      guarded (λ x. x) c.closed (in_items p items) c c _ (same-Adds c h)
        (fire-Adds p (in_items p items) c rest.0 (sets.1 ++ rest.1) h
          (omega (arith, e, e2, joined), d2 ∙ d, f2 ∙ f))

  pub drained-Adds :
      (c c' : Cache K V)
      → c.has_hook ≡ true
      → c'.has_hook ≡ c.has_hook
      → c'.fired ≡ c.fired
      → c'.nodes ≡ []
      → Adds p 0 c (fire (map (event_of by_clear) c.nodes) c')
  drained-Adds c c' h d f e =
      fire-Adds p 0 c c' (map (event_of by_clear) c.nodes) h
        (omega (arith, ap (in_nodes p) e, events-count p by_clear c.nodes), d, ap (in_events p) f)

  pub expired-Adds :
      (c c' : Cache K V) (gone : List (Node K V))
      → c.has_hook ≡ true
      → c'.has_hook ≡ c.has_hook
      → c'.fired ≡ c.fired
      → in_nodes p c.nodes ≡ in_nodes p c'.nodes + in_nodes p gone
      → Adds p 0 c (fire (map (event_of by_expiry) gone) c')
  expired-Adds c c' gone h d f e =
      fire-Adds p 0 c c' (map (event_of by_expiry) gone) h
        (omega (arith, e, events-count p by_expiry gone), d, ap (in_events p) f)
