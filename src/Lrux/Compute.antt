-- ===== src/Lrux/Compute.antt =====
-- lrux/compute.go: `GetOrCompute`. While a compute function runs, it and others
-- may use the cache.
use urx.Base.{ℕ, ◌+◌, ◌-◌, Bool, Option, none, some, ◌∷◌, if◌then◌else◌, u64, u64_mod}
use urx.Base.Errors.{Error, sentinel, lrux, closed}
use urx.Base.Int.{ℤ, pos}
use urx.Lrux.Config.{ComputeConfig}
use urx.Panix.Recover.{Outcome, safe}
use urx.Lrux.Types.{Node, Cache, is_expired, count_hit, count_miss, count_eviction}
use urx.Lrux.Cache.{
  find, erase, evict_one, set_with_ttl, expire_time, fresh_node, drop_expired, peek_promote,
}

-- The clock at the looks for the key, and at the insertion.
pub record Clock : Type 0 where
  pub checked : ℕ
  pub promoted : ℕ
  pub rechecked : ℕ
  pub moved : ℕ
  pub last_checked : ℕ
  pub inserted : ℕ

-- `ctx.Err()` at the beginning, before the compute function and after it.
pub record Looks : Type 0 where
  pub first : Option Error
  pub before : Option Error
  pub after : Option Error

module _ {ℓ κ} {K : Type ℓ} {V : Type κ} where
  unfoldable pub convert_miss_to_hit : Cache K V → Cache K V
  convert_miss_to_hit c = record c {
    hits = u64 (c.hits + 1);
    misses = u64 (c.misses + (u64_mod - 1));
  }

  module _ (same : K → K → Bool) (zero_value : V) where
    abbrev pub failed : Error → Cache K V → Cache K V × V × Option Error
    failed e c = (c, zero_value, some e)

    -- `insertLocked`
    unfoldable pub insert_locked : ℕ → K → V → ℤ → Cache K V → Cache K V × V × Option Error
    unfolding evict_one expire_time
    insert_locked now key value ttl c = if c.closed then failed (sentinel lrux closed) c else (
      evict_one
          (record c { nodes = fresh_node same now key value (expire_time now ttl c) ∷ c.nodes }),
      value,
      none,
    )

    -- The last look, with the value in hand. On a closed cache no callback is called any more.
    unfoldable pub store :
        Clock → K → V → ℤ → Option (Node K V) → Cache K V → Cache K V × V × Option Error
    unfolding insert_locked convert_miss_to_hit
    store t key value ttl none c = insert_locked t.inserted key value ttl c
    store t key value ttl (some n) c =
        if is_expired t.last_checked n
        then (if c.closed
            then failed (sentinel lrux closed)
                (count_eviction (record c { nodes = erase same n.key c.nodes }))
            else insert_locked t.inserted key value ttl (drop_expired same n c))
        else (convert_miss_to_hit c, n.value, none)

    -- What the compute function came to, by its error and the context's after it.
    abbrev pub computed :
        Clock → Option Error → K → ℤ → Cache K V → V × Option Error → Cache K V × V × Option Error
    computed t after key ttl c (value, some e) = failed e c
    computed t (some e) key ttl c (value, none) = failed e c
    computed t none key ttl c (value, none) = store t key value ttl (find same key c.nodes) c

    -- `computeDirect` after its first look.
    abbrev pub compute_with :
        Clock
        → Looks
        → K
        → ℤ
        → (Cache K V → Cache K V × Outcome V)
        → Cache K V × Option V
        → Cache K V × V × Option Error
    compute_with t looks key ttl fn (c, some v) = (convert_miss_to_hit c, v, none)
    compute_with t looks key ttl fn (c, none) =
        let (c', outcome) = fn c in
        elim looks.before [
          | some e ↦ failed e c
          | none ↦ computed t looks.after key ttl c' (safe zero_value "lrux.GetOrCompute" outcome)
        ]

    unfoldable pub compute_direct :
        Clock
        → Looks
        → K
        → ℤ
        → (Cache K V → Cache K V × Outcome V)
        → Cache K V
        → Cache K V × V × Option Error
    unfolding peek_promote store convert_miss_to_hit safe
    compute_direct t looks key ttl fn c =
        compute_with t looks key ttl fn (peek_promote same t.rechecked t.moved key c)

    -- What the shared compute came to: a value is stored.
    abbrev pub led : Clock → K → ℤ → Cache K V → V × Option Error → Cache K V × V × Option Error
    led t key ttl c (value, some e) = failed e c
    led t key ttl c (value, none) = (set_with_ttl same t.inserted key value ttl c, value, none)

    -- The function that `computeSingle` gives to the single-flight group, when the group runs it.
    unfoldable pub lead :
        Clock
        → K
        → ℤ
        → (Cache K V → Cache K V × Outcome V)
        → Cache K V × Option V
        → Cache K V × V × Option Error
    unfolding set_with_ttl safe
    lead t key ttl fn (c, some v) = (c, v, none)
    lead t key ttl fn (c, none) =
        let (c', outcome) = fn (count_miss c) in
        led t key ttl c' (safe zero_value "lrux.GetOrCompute" outcome)

    -- The group runs the function of one call, and gives its result to the others: `shared` is what
    -- another call's function came to, and `none` where the group runs this call's. (The group is
    -- `golang.org/x/sync/singleflight`.)
    abbrev pub flown :
        Clock
        → K
        → ℤ
        → (Cache K V → Cache K V × Outcome V)
        → Option (V × Option Error)
        → Cache K V
        → Cache K V × V × Option Error
    flown t key ttl fn none c = lead t key ttl fn (peek_promote same t.rechecked t.moved key c)
    flown t key ttl fn (some (value, err)) c = (c, value, err)

    -- The `select`: `looks.before` is the context's error if it ends the wait, `looks.after` the one
    -- after a result.
    abbrev pub landed :
        Option Error → Option Error → Cache K V × V × Option Error → Cache K V × V × Option Error
    landed (some e) after (c, value, err) = failed e c
    landed none (some e) (c, value, err) = failed e c
    landed none none (c, value, some e) = failed e c
    landed none none (c, value, none) =
        if c.closed then failed (sentinel lrux closed) c else (c, value, none)

    unfoldable pub compute_single :
        Clock
        → Looks
        → K
        → ℤ
        → (Cache K V → Cache K V × Outcome V)
        → Option (V × Option Error)
        → Cache K V
        → Cache K V × V × Option Error
    unfolding lead peek_promote
    compute_single t looks key ttl fn shared c =
        landed looks.before looks.after (flown t key ttl fn shared c)

    -- A hit, or the compute: under `WithSingleflight` the miss is not counted yet.
    abbrev pub cached_or :
        ComputeConfig
        → Clock
        → Looks
        → K
        → (Cache K V → Cache K V × Outcome V)
        → Option (V × Option Error)
        → Cache K V × Option V
        → Cache K V × V × Option Error
    cached_or cfg t looks key fn shared (c, some v) = (count_hit c, v, none)
    cached_or cfg t looks key fn shared (c, none) =
        if cfg.singleflight
        then compute_single t looks key (pos cfg.ttl) fn shared c
        else compute_direct t looks key (pos cfg.ttl) fn (count_miss c)

    -- `GetOrCompute`; `shared` is about the single-flight group, as above.
    unfoldable pub get_or_compute :
        ComputeConfig
        → Clock
        → Looks
        → K
        → (Cache K V → Cache K V × Outcome V)
        → Option (V × Option Error)
        → Cache K V
        → Cache K V × V × Option Error
    unfolding peek_promote compute_direct compute_single
    get_or_compute cfg t looks key fn shared c =
        if c.closed then failed (sentinel lrux closed) c else elim looks.first [
          | some e ↦ failed e c
          | none ↦
              cached_or cfg t looks key fn shared (peek_promote same t.checked t.promoted key c)
        ]
