-- ===== src/Lrux/Held.antt =====
-- lrux/lrux.go: where the stored values are. `p` is any test of a key and a value; what passes it is
-- counted among the nodes, among the collected events, and among the calls of the callback.
use urx.Base.{
  ℕ, zero, suc, ◌+◌, ◌≡◌, refl, sym, ap, subst, ◌∙◌, Bool, true, false, Option, some, List, [], ◌∷◌,
  ◌++◌, map, if◌then◌else◌, if-intro, arith, count_if, Option-cases, inl, inr, ◌&&◌,
}
use urx.Lrux.Types.{Node, EvictionReason, EvictEvent, Cache, event_of, fire, count_eviction}
use urx.Lrux.Cache.{
  find, erase, split_last, remove_tail, over_capacity, evict_one, evict_loop, has_event,
  nothing_left,
}
use urx.Lrux.Sweeps.{set_entry, set_entries, delete_entries}
use urx.Lrux.Nodes.{
  IsEquality, find_key, one_if, count_if-append, split_last-append, count_if-erase,
}

module _ {ℓ κ} {K : Type ℓ} {V : Type κ} (p : K → V → Bool) where
  abbrev pub in_nodes : List (Node K V) → ℕ
  in_nodes ns = count_if (λ n. p n.key n.value) ns

  abbrev pub in_events : List (EvictEvent K V) → ℕ
  in_events es = count_if (λ e. p e.key e.value) es

  abbrev pub held : Cache K V → ℕ
  held c = in_nodes c.nodes + in_events c.fired

  -- Before the callback is called: `k` values came, and each one is among the nodes or the events.
  abbrev pub Keeps : ℕ → Cache K V → Cache K V × List (EvictEvent K V) → Type 0
  Keeps k c (c', events) =
      (in_nodes c'.nodes + in_events events ≡ in_nodes c.nodes + k)
      × (c'.has_hook ≡ c.has_hook)
      × (in_events c'.fired ≡ in_events c.fired)

  -- After it.
  abbrev pub Adds : ℕ → Cache K V → Cache K V → Type 0
  Adds k c c' = (held c' ≡ held c + k) × (c'.has_hook ≡ true)

  pub fire-Adds :
      (k : ℕ) (c c' : Cache K V) (events : List (EvictEvent K V))
      → c.has_hook ≡ true
      → Keeps k c (c', events)
      → Adds k c (fire events c')
  fire-Adds k c c' events h (e, d, f) =
      let here : c'.has_hook ≡ true = d ∙ h in
      let fired : (if c'.has_hook then c'.fired ++ events else c'.fired) ≡ c'.fired ++ events =
        rw here in
      (
        omega (
          arith,
          e,
          f,
          ap in_events fired,
          count_if-append (λ x. p x.key x.value) c'.fired events,
        ),
        here,
      )

  pub events-count :
      (why : EvictionReason) (ns : List (Node K V))
      → in_events (map (event_of why) ns) ≡ in_nodes ns
  events-count why [] = refl
  events-count why (n ∷ ns) = ground (arith, events-count why ns)

  pub remove_tail-Keeps : (c : Cache K V) → Keeps 0 c (remove_tail c)
  unfolding remove_tail
  remove_tail-Keeps c = elim (Option-cases (split_last c.nodes)) [
    | inl e ↦ rw (e, remove_tail) (omega arith, refl, refl)
    | inr (x, e) ↦
        let whole = split_last-append c.nodes x.0 x.1 e in
        let counted = count_if-append (λ n. p n.key n.value) x.0 (x.1 ∷ []) in
        rw (e, remove_tail) (ground (arith, ap in_nodes whole, counted), refl, refl)
  ]

  pub evict_one-Adds :
      (k : ℕ) (c c' : Cache K V) → c.has_hook ≡ true → Keeps k c (c', []) → Adds k c (evict_one c')
  unfolding evict_one
  evict_one-Adds k c c' h (e, d, f) =
      let tail = remove_tail c' in
      let (e2, d2, f2) = remove_tail-Keeps c' in
      if-intro (Adds k c) (over_capacity c') _ _
        (fire-Adds k c (count_eviction tail.0) tail.1 h (omega (arith, e, e2), d2 ∙ d, f2 ∙ f))
        (omega (arith, e, f), d ∙ h)

  -- `Resize` stops early only where there is no event, and then nothing was removed.
  break-Keeps :
      (breaks : Bool) (c : Cache K V) (t y : Cache K V × List (EvictEvent K V))
      → Keeps 0 c t
      → Keeps 0 c y
      → Keeps 0 c (if breaks && nothing_left (has_event true t.1) t.0.nodes then (t.0, []) else y)
  break-Keeps breaks c (c', []) y k r = if-intro (Keeps 0 c) _ _ _ k r
  break-Keeps true c (c', e ∷ es) y k r = r
  break-Keeps false c (c', e ∷ es) y k r = r

  pub evict_loop-Keeps :
      (breaks : Bool) (fuel : ℕ) (c : Cache K V)
      → c.has_hook ≡ true
      → Keeps 0 c (evict_loop breaks fuel c)
  unfolding evict_loop
  evict_loop-Keeps breaks zero c h = (omega arith, refl, refl)
  evict_loop-Keeps breaks (suc fuel) c h =
      let t = remove_tail c in
      let first = remove_tail-Keeps c in
      let (e, d, f) = first in
      let rest = evict_loop breaks fuel (count_eviction t.0) in
      let (e2, d2, f2) = evict_loop-Keeps breaks fuel (count_eviction t.0) (d ∙ h) in
      let joined = count_if-append (λ x. p x.key x.value) t.1 rest.1 in
      if-intro (Keeps 0 c) (over_capacity c) _ _
        (subst
          (λ k. Keeps 0 c (
            if breaks && nothing_left (has_event k t.1) t.0.nodes
            then (t.0, [])
            else (rest.0, t.1 ++ rest.1)))
          (sym h)
          (break-Keeps breaks c t (rest.0, t.1 ++ rest.1) first
            (omega (arith, e, e2, joined), d2 ∙ d, f2 ∙ f)))
        (omega arith, refl, refl)

  -- How many of the items pass the test.
  abbrev pub in_items : List (K × V) → ℕ
  in_items items = count_if (λ x. p x.0 x.1) items

  module _ (same : K → K → Bool) (eq : IsEquality same) where
    pub erased-count :
        (key : K) (n : Node K V) (ns : List (Node K V))
        → find same key ns ≡ some n
        → in_nodes ns ≡ one_if (p n.key n.value) + in_nodes (erase same n.key ns)
    erased-count key n ns f =
        count_if-erase same eq (λ m. p m.key m.value) n.key ns n
          (subst (λ k. find same k ns ≡ some n) (sym (find_key same eq key ns n f)) f)

    pub set_entry-Keeps :
        (now : ℕ) (expires : Option ℕ) (key : K) (value : V) (c : Cache K V)
        → Keeps (one_if (p key value)) c (set_entry same now expires key value c)
    unfolding set_entry
    set_entry-Keeps now expires key value c = elim (Option-cases (find same key c.nodes)) [
      | inl f ↦ rw (f, set_entry) (ground arith, refl, refl)
      | inr (n, f) ↦
          let key_same = find_key same eq key c.nodes n f in
          rw (f, set_entry)
            (
              ground (arith, erased-count key n c.nodes f, ap (λ k. one_if (p k value)) key_same),
              refl,
              refl,
            )
    ]

    pub set_entries-Keeps :
        (now : ℕ) (expires : Option ℕ) (items : List (K × V)) (c : Cache K V)
        → Keeps (in_items items) c (set_entries same now expires items c)
    unfolding set_entries
    set_entries-Keeps now expires [] c = (omega arith, refl, refl)
    set_entries-Keeps now expires ((key, value) ∷ items) c =
        let first = set_entry same now expires key value c in
        let rest = set_entries same now expires items first.0 in
        let (e, d, f) = set_entry-Keeps now expires key value c in
        let (e2, d2, f2) = set_entries-Keeps now expires items first.0 in
        let joined = count_if-append (λ x. p x.key x.value) first.1 rest.1 in
        (ground (arith, e, e2, joined), d2 ∙ d, f2 ∙ f)

    pub delete_entries-Keeps : (ks : List K) (c : Cache K V) → Keeps 0 c (delete_entries same ks c)
    delete_entries-Keeps [] c = (omega arith, refl, refl)
    delete_entries-Keeps (key ∷ ks) c = elim (Option-cases (find same key c.nodes)) [
      | inl f ↦ rw (f, delete_entries) (delete_entries-Keeps ks c)
      | inr (n, f) ↦
          let (e, d, g) = delete_entries-Keeps ks (record c { nodes = erase same n.key c.nodes }) in
          rw (f, delete_entries) (ground (arith, e, erased-count key n c.nodes f), d, g)
    ]
