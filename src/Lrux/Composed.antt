-- ===== src/Lrux/Composed.antt =====
-- lrux/compute.go: a call of `GetOrCompute`, whose compute function uses the cache by operations, as a
-- sequence of operations.
use urx.Base.{
  ◌≡◌, refl, ap, ◌∙◌, Bool, Option, none, some, List, [], ◌∷◌, ◌++◌, Option-cases, inl, inr,
  if-intro, if-both, subst, sym,
}
use urx.Base.Errors.{Error, sentinel, lrux, closed}
use urx.Base.Int.{ℤ, pos}
use urx.Lrux.Config.{ComputeConfig}
use urx.Panix.Recover.{Outcome, safe}
use urx.Lrux.Types.{Node, Cache, is_expired, count_miss}
use urx.Lrux.Cache.{find, peek_promote, set_with_ttl}
use urx.Lrux.Compute.{
  Clock, Looks, failed, store, insert_locked, computed, compute_with, compute_direct,
  compute_single, led, lead, flown, landed, cached_or, get_or_compute,
}
use urx.Lrux.Parts.{promotes, counts_hit, counts_miss, converts, stores, part_step}
use urx.Lrux.Ops.{CacheOp, op_set, op_part, step, run}

module _ {ℓ κ} {K : Type ℓ} {V : Type κ} (same : K → K → Bool) where
  pub run-append :
      (xs ys : List (CacheOp K V)) (c : Cache K V)
      → run same ys (run same xs c) ≡ run same (xs ++ ys) c
  run-append [] ys c = refl
  run-append (x ∷ xs) ys c = run-append xs ys (step same x c)

  -- The cache does not depend on the value that a failed call returns.
  store-zero :
      (z z' : V) (t : Clock) (key : K) (value : V) (ttl : ℤ) (o : Option (Node K V)) (c : Cache K V)
      → (store same z t key value ttl o c).0 ≡ (store same z' t key value ttl o c).0
  unfolding store insert_locked
  store-zero z z' t key value ttl none c =
      if-both (λ (x y : Cache K V × V × Option Error). x.0 ≡ y.0) c.closed _ _ _ _ refl refl
  store-zero z z' t key value ttl (some n) c =
      if-both (λ (x y : Cache K V × V × Option Error). x.0 ≡ y.0) (is_expired t.last_checked n) _ _
        _ _
        (if-both (λ (x y : Cache K V × V × Option Error). x.0 ≡ y.0) c.closed _ _ _ _ refl
          (if-both (λ (x y : Cache K V × V × Option Error). x.0 ≡ y.0) c.closed _ _ _ _ refl refl))
        refl

  -- The cache `c'` comes from `c` by operations.
  abbrev pub Reaches : Cache K V → Cache K V → Type (ℓ ⊔ κ)
  Reaches c c' = (ops : List (CacheOp K V)) × (c' ≡ run same ops c)

  after : (c c' c'' : Cache K V) → Reaches c c' → Reaches c' c'' → Reaches c c''
  after c c' c'' (xs, e) (ys, d) = (xs ++ ys, d ∙ ap (run same ys) e ∙ run-append xs ys c)

  module _ (z : V) (t : Clock) (looks : Looks) (key : K) (ttl : ℤ)
      (fn : Cache K V → Cache K V × Outcome V) (uses : (c : Cache K V) → Reaches c (fn c).0) where
    computed-Reaches :
        (after_it : Option Error) (c : Cache K V) (x : V × Option Error)
        → Reaches c (computed same z t after_it key ttl c x).0
    unfolding step part_step
    computed-Reaches after_it c (value, some e) = ([], refl)
    computed-Reaches (some e) c (value, none) = ([], refl)
    computed-Reaches none c (value, none) = (
      op_part key (stores t value ttl) ∷ [],
      store-zero z value t key value ttl (find same key c.nodes) c,
    )

    compute_with-Reaches :
        (x : Cache K V × Option V) → Reaches x.0 (compute_with same z t looks key ttl fn x).0
    unfolding step part_step
    compute_with-Reaches (c, some v) = (op_part key converts ∷ [], refl)
    compute_with-Reaches (c, none) =
        let result = safe z "lrux.GetOrCompute" (fn c).1 in
        elim (Option-cases looks.before) [
          | inr (e, f) ↦ rw f ([], refl)
          | inl f ↦ rw f (
              after c (fn c).0 (computed same z t looks.after key ttl (fn c).0 result).0 (uses c)
                (computed-Reaches looks.after (fn c).0 result))
        ]

    compute_direct-Reaches :
        (c : Cache K V) → Reaches c (compute_direct same z t looks key ttl fn c).0
    unfolding compute_direct step part_step
    compute_direct-Reaches c =
        after c (peek_promote same t.rechecked t.moved key c).0
          (compute_direct same z t looks key ttl fn c).0
          (op_part key (promotes t.rechecked t.moved) ∷ [], refl)
          (compute_with-Reaches (peek_promote same t.rechecked t.moved key c))

    led-Reaches :
        (c c' : Cache K V) (x : V × Option Error)
        → Reaches c c'
        → Reaches c (led same z t key ttl c' x).0
    unfolding step
    led-Reaches c c' (value, some e) ran = ran
    led-Reaches c c' (value, none) ran =
        after c c' (set_with_ttl same t.inserted key value ttl c') ran
          (op_set t.inserted key value ttl ∷ [], refl)

    -- Under `WithSingleflight`, also where the group runs the function of another call.
    lead-Reaches : (x : Cache K V × Option V) → Reaches x.0 (lead same z t key ttl fn x).0
    unfolding lead step part_step
    lead-Reaches (c, some v) = ([], refl)
    lead-Reaches (c, none) =
        led-Reaches c (fn (count_miss c)).0 (safe z "lrux.GetOrCompute" (fn (count_miss c)).1) (
          after c (count_miss c) (fn (count_miss c)).0 (op_part key counts_miss ∷ [], refl)
            (uses (count_miss c)))

    landed-cache :
        (before after_it : Option Error) (x : Cache K V × V × Option Error)
        → (landed same z before after_it x).0 ≡ x.0
    landed-cache (some e) after_it (c, value, err) = refl
    landed-cache none (some e) (c, value, err) = refl
    landed-cache none none (c, value, some e) = refl
    landed-cache none none (c, value, none) =
        if-intro (λ (x : Cache K V × V × Option Error). x.0 ≡ c) c.closed _ (c, value, none) refl
          refl

    flown-Reaches :
        (shared : Option (V × Option Error)) (c : Cache K V)
        → Reaches c (flown same z t key ttl fn shared c).0
    unfolding step part_step
    flown-Reaches (some (value, err)) c = ([], refl)
    flown-Reaches none c =
        let first = peek_promote same t.rechecked t.moved key c in
        after c first.0 (lead same z t key ttl fn first).0
          (op_part key (promotes t.rechecked t.moved) ∷ [], refl) (lead-Reaches first)

    compute_single-Reaches :
        (shared : Option (V × Option Error)) (c : Cache K V)
        → Reaches c (compute_single same z t looks key ttl fn shared c).0
    unfolding compute_single
    compute_single-Reaches shared c =
        subst (Reaches c)
          (sym (landed-cache looks.before looks.after (flown same z t key ttl fn shared c)))
          (flown-Reaches shared c)

  module _ (z : V) (cfg : ComputeConfig) (t : Clock) (looks : Looks) (key : K)
      (fn : Cache K V → Cache K V × Outcome V) (shared : Option (V × Option Error))
      (uses : (c : Cache K V) → Reaches c (fn c).0) where
    cached_or-Reaches :
        (x : Cache K V × Option V) → Reaches x.0 (cached_or same z cfg t looks key fn shared x).0
    unfolding step part_step
    cached_or-Reaches (c, some v) = (op_part key counts_hit ∷ [], refl)
    cached_or-Reaches (c, none) =
        if-intro (λ (x : Cache K V × V × Option Error). Reaches c x.0) cfg.singleflight _ _
          (compute_single-Reaches z t looks key (pos cfg.ttl) fn uses shared c)
          (after c (count_miss c)
            (compute_direct same z t looks key (pos cfg.ttl) fn (count_miss c)).0
            (op_part key counts_miss ∷ [], refl)
            (compute_direct-Reaches z t looks key (pos cfg.ttl) fn uses (count_miss c)))

    -- So what every sequence of operations keeps, every call of `GetOrCompute` keeps.
    pub get_or_compute-Reaches :
        (c : Cache K V) → Reaches c (get_or_compute same z cfg t looks key fn shared c).0
    unfolding get_or_compute step part_step
    get_or_compute-Reaches c =
        let first = peek_promote same t.checked t.promoted key c in
        let called =
          after c first.0 (cached_or same z cfg t looks key fn shared first).0
            (op_part key (promotes t.checked t.promoted) ∷ [], refl) (cached_or-Reaches first) in
        if-intro (λ (x : Cache K V × V × Option Error). Reaches c x.0) c.closed
          (failed same z (sentinel lrux closed) c) _ ([], refl)
          (elim (Option-cases looks.first) [ inr (e, f) ↦ rw f ([], refl) | inl f ↦ rw f called ])
