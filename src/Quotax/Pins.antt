-- ===== src/Quotax/Pins.antt =====
-- quotax/quotax.go: the bucket of a key while a waiter has it pinned.
use urx.Base.{
  ℕ, zero, suc, ◌+◌, ◌-◌, ◌<◌, ◌≡◌, refl, sym, ap, subst, ◌∙◌, Bool, true, false, ◌&&◌, ◌||◌, not,
  some, List, [], ◌∷◌, arith, if◌then◌else◌, if-cases, if-both, if_true, ltb, ◌==◌, IsEquality,
  Bool-cases, inl, inr,
}
use urx.Base.Int.{ℤ}
use urx.Ratex.Bucket.{allow_n}
use urx.Quotax.Table.{Bucket, Entry, find, replace}
use urx.Quotax.Tables.{find-replace-same, find-keep_if}
use urx.Quotax.Quota.{
  Quota, write, get_or_create, get_or_create_at, check, quota_allow_n, pinned_at, count_refusal,
  bucket_for_wait, unpin, unpin_at, remove, remove_at, shard_for, is_pinned, is_stale, reset_shard,
  reset_shards, reset, evict_shard, evict_shards, evict, close, reset_stats, touched,
}
use urx.Quotax.Ops.{
  QuotaOp, op_allow, op_pin, op_unpin, op_remove, op_reset, op_close, op_reset_stats, op_evict,
  step, run,
}
use urx.Quotax.Others.{
  get_or_create_at-other, check-other, pinned_at-other, unpin_at-other, remove_at-other,
}
use urx.Quotax.Gates.{shut_after, record_ok-keeps, step-shut}

abbrev pub asked : ℕ → ℤ → Bucket → Bucket
asked now n b = record b { last_access = now; limiter = (allow_n now n b.limiter).0 }

or-true : (a b : Bool) → b ≡ true → (a || b) ≡ true
or-true true b h = refl
or-true false b h = h

spared : (a p c : Bool) → p ≡ true → not (a && (not p && c)) ≡ true
spared true p c h = rw h refl
spared false p c h = refl

module _ {ℓ} {K : Type ℓ} where
  -- What an operation makes of the bucket of a key, where Remove, Reset and the eviction pass it by.
  module _ (same : K → K → Bool) (key : K) where
    abbrev pub follow_one : QuotaOp K → Bool → Bucket → Bucket
    follow_one (op_allow now n k) shut b =
        if shut then b else (if same k key then asked now n b else b)
    follow_one (op_pin now k) shut b =
        if same k key then record b { pins = b.pins + 1; last_access = now } else b
    follow_one (op_unpin k) shut b = if same k key then record b { pins = b.pins - 1 } else b
    follow_one _ shut b = b

    abbrev pub follow : List (QuotaOp K) → Bool → Bucket → Bucket
    follow [] shut b = b
    follow (op ∷ ops) shut b = follow ops (shut_after op shut) (follow_one op shut b)

    -- A waiter has the bucket pinned before each of the operations.
    abbrev pub StaysPinned : List (QuotaOp K) → Bool → Bucket → Type 0
    StaysPinned [] shut b = Unit
    StaysPinned (op ∷ ops) shut b =
        (0 < b.pins) × StaysPinned ops (shut_after op shut) (follow_one op shut b)

  module _ (same : K → K → Bool) (eq : IsEquality same) where
    -- The operations on the key itself, in whose bucket somebody has a pin.
    check-own :
        (now : ℕ) (n : ℤ) (key : K) (b : Bucket) (q : Quota K)
        → find same key q.entries ≡ some b
        → find same key (check same now n key (get_or_create_at same now key (some b) q)).0.entries
          ≡ some (asked now n b)
    check-own now n key b q f =
        let b1 = touched same now b in
        let (l, ok) = allow_n now n b.limiter in
        ap (find same key)
          (record_ok-keeps ok (write same key (asked now n b) (write same key b1 q))).0
        ∙ find-replace-same same eq key b1 (asked now n b) (replace same key b1 q.entries)
            (find-replace-same same eq key b b1 q.entries f)

    -- An operation that writes to the key's bucket, by whether its key is this one.
    by_key :
        (key k : K) (f : K → Quota K) (x y : Bucket)
        → find same key (f key).entries ≡ some x
        → (same k key ≡ false → find same key (f k).entries ≡ some y)
        → find same key (f k).entries ≡ some (if same k key then x else y)
    by_key key k f x y own other =
        if-cases (λ (b : Bucket). find same key (f k).entries ≡ some b) (same k key) x y
          (λ t. subst (λ j. find same key (f j).entries ≡ some x) (sym (eq.sound k key t)) own)
          other

  module _ (same : K → K → Bool) (hash : K → ℕ) (key : K) (b : Bucket) (p : 0 < b.pins) where
    pinned : (e : Entry K) → e.bucket ≡ b → is_pinned hash e ≡ true
    pinned e h =
        ap (λ (x : Bucket). ltb 0 x.pins) h ∙ (let t : ltb 0 b.pins ≡ true = ground (arith, p) in t)

    reset_shards-pinned :
        (i k : ℕ) (x : Quota K × ℕ)
        → find same key x.0.entries ≡ some b
        → find same key (reset_shards hash i k x).0.entries ≡ some b
    unfolding reset_shards reset_shard
    reset_shards-pinned i zero x f = f
    reset_shards-pinned i (suc k) (q, remaining) f =
        reset_shards-pinned (i + 1) k (reset_shard hash i (q, remaining)) (
          find-keep_if same (λ e. not (shard_for hash q e == i) || is_pinned hash e) key b q.entries
            (λ e h. or-true (not (shard_for hash q e == i)) (is_pinned hash e) (pinned e h)) f)

    evict_shards-pinned :
        (now i k : ℕ) (q : Quota K)
        → find same key q.entries ≡ some b
        → find same key (evict_shards hash now i k q).entries ≡ some b
    unfolding evict_shards evict_shard
    evict_shards-pinned now i zero q f = f
    evict_shards-pinned now i (suc k) q f =
        evict_shards-pinned now (i + 1) k (evict_shard hash now i q) (
          find-keep_if same (λ e. not ((shard_for hash q e == i) && is_stale hash now q e)) key b
            q.entries
            (λ e h.
              spared (shard_for hash q e == i) (is_pinned hash e)
                (ltb (e.bucket.last_access + q.cfg.eviction_ttl) now) (pinned e h))
            f)

  module _ (same : K → K → Bool) (eq : IsEquality same) (hash : K → ℕ) (key : K) where
    step-follow_one :
        (op : QuotaOp K) (b : Bucket) (q : Quota K)
        → 0 < b.pins
        → find same key q.entries ≡ some b
        → find same key (step same hash op q).entries ≡ some (follow_one same key op q.is_shut b)
    unfolding step quota_allow_n get_or_create bucket_for_wait unpin remove reset evict close
        reset_stats
    step-follow_one (op_allow now n k) b q p f =
        let asks = λ (j : K).
          (check same now n j (get_or_create_at same now j (find same j q.entries) q)).0 in
        if-both (λ (x : Quota K × Bool) (y : Bucket). find same key x.0.entries ≡ some y) q.is_shut
          (q, false) (check same now n k (get_or_create same now k q)) b
          (if same k key then asked now n b else b) f
          (by_key same eq key k asks (asked now n b) b
            (ap
                (λ o.
                  find same key
                    (check same now n key (get_or_create_at same now key o q)).0.entries)
                f
              ∙ check-own same eq now n key b q f)
            (λ d.
              check-other same eq k key d now n
                (get_or_create_at same now k (find same k q.entries) q)
              ∙ get_or_create_at-other same eq k key d now (find same k q.entries) q
              ∙ f))
    step-follow_one (op_pin now k) b q p f =
        let b' = record b { pins = b.pins + 1; last_access = now } in
        by_key same eq key k
          (λ j. (count_refusal same (pinned_at same now j (find same j q.entries) q)).0) b' b
          (ap (λ o. find same key (count_refusal same (pinned_at same now key o q)).0.entries) f
            ∙ find-replace-same same eq key b b' q.entries f)
          (λ d. pinned_at-other same eq k key d now (find same k q.entries) q ∙ f)
    step-follow_one (op_unpin k) b q p f =
        let b' = record b { pins = b.pins - 1 } in
        by_key same eq key k (λ j. unpin_at same j (find same j q.entries) q) b' b
          (ap (λ o. find same key (unpin_at same key o q).entries) f
            ∙ find-replace-same same eq key b b' q.entries f)
          (λ d. unpin_at-other same eq k key d (find same k q.entries) q ∙ f)
    step-follow_one (op_remove k) b q p f =
        let here : find same key (remove_at same key (some b) q).0.entries ≡ some b =
          ap (λ (x : Quota K × Bool). find same key x.0.entries)
            (if_true (ltb 0 b.pins) (q, false) _ (ground (arith, p)))
          ∙ f in
        elim (Bool-cases (same k key)) [
          | inl t ↦
              subst
                (λ j. find same key (remove_at same j (find same j q.entries) q).0.entries ≡ some b)
                (sym (eq.sound k key t))
                (ap (λ o. find same key (remove_at same key o q).0.entries) f ∙ here)
          | inr d ↦ remove_at-other same eq k key d (find same k q.entries) q ∙ f
        ]
    step-follow_one op_reset b q p f = reset_shards-pinned same hash key b p 0 q.cfg.shards (q, 0) f
    step-follow_one op_close b q p f = f
    step-follow_one op_reset_stats b q p f = f
    step-follow_one (op_evict now) b q p f =
        evict_shards-pinned same hash key b p now 0 q.cfg.shards q f

    -- For every sequence of operations, where a waiter has the bucket of a key pinned before each of
    -- them: the key has a bucket at the end, and it is what the pins and unpins of this key, and its
    -- requests up to `Close`, made of it one after the other. `Remove`, `Reset`, the eviction and the
    -- operations on other keys change nothing of it.
    pub run-follow :
        (ops : List (QuotaOp K)) (b : Bucket) (q : Quota K)
        → find same key q.entries ≡ some b
        → StaysPinned same key ops q.is_shut b
        → find same key (run same hash ops q).entries ≡ some (follow same key ops q.is_shut b)
    run-follow [] b q f p = f
    run-follow (op ∷ ops) b q f (p, ps) =
        let q' = step same hash op q in
        let b' = follow_one same key op q.is_shut b in
        let s = step-shut same hash op q in
        run-follow ops b' q' (step-follow_one op b q p f)
          (subst (λ x. StaysPinned same key ops x b') (sym s) ps)
        ∙ ap (λ x. some (follow same key ops x b')) s
