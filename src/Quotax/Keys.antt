-- ===== src/Quotax/Keys.antt =====
-- quotax/quotax.go: the count of keys.
use urx.Base.{
  ℕ, zero, suc, ◌+◌, ◌-◌, ◌≤◌, ◌<◌, ◌≡◌, ◌⊎◌, inl, inr, refl, sym, ap, ◌∙◌, Bool, true, false, ◌&&◌,
  not, Option, none, some, List, [], ◌∷◌, arith, length, count_if, if◌then◌else◌, if-intro,
  if-cases, ltb, leb, ◌==◌,
}
use urx.Base.Int.{ℤ}
use urx.Ratex.Bucket.{allow_n}
use urx.Quotax.Config.{QuotaOption, new_config-shards}
use urx.Quotax.Table.{Bucket, Entry, keep_if, find, erase}
use urx.Quotax.Quota.{
  Quota, new, reserve_key, invoke_on_max_keys, created, record_ok, write, get_or_create,
  get_or_create_at, check, quota_allow_n, pinned_at, count_refusal, bucket_for_wait, unpin,
  unpin_at, remove, remove_at, shard_for, is_stale, reset_shards, reset, evict_shard, evict_shards,
  evict, close, reset_stats, touched,
}
use urx.Quotax.Tables.{keep_if-split, length-replace, length-erase}
use urx.Quotax.Shards.{to_come, reset_shards-balance, all_to_come, none_to_come}
use urx.Quotax.Ops.{
  QuotaOp, op_allow, op_pin, op_unpin, op_remove, op_reset, op_close, op_reset_stats, op_evict,
  step, run,
}

module _ {ℓ} {K : Type ℓ} where
  -- The count is exact, the maximum is kept, and there is a shard.
  abbrev pub Inv : Quota K → Type 0
  Inv q =
      (q.key_count ≡ length q.entries)
      × ((q.cfg.max_keys ≡ 0) ⊎ (length q.entries ≤ q.cfg.max_keys))
      × (0 < q.cfg.shards)

  -- Fewer entries, counted.
  fewer-Inv :
      (q : Quota K) (es : List (Entry K)) (n : ℕ)
      → n ≡ length es
      → length es ≤ length q.entries
      → Inv q
      → Inv (record q { entries = es; key_count = n })
  fewer-Inv q es n e h (c, m, s) =
      (e, elim m [ inl z ↦ inl z | inr b ↦ inr (omega (arith, b, h)) ], s)

  record_ok-Inv : (ok : Bool) (q : Quota K) → Inv q → Inv (record_ok ok q)
  record_ok-Inv true q v = v
  record_ok-Inv false q v = v

  created-Inv :
      (now pins : ℕ) (key : K) (q : Quota K)
      → Inv q
      → Inv (created now pins key q (reserve_key q)).0
  unfolding reserve_key invoke_on_max_keys
  created-Inv now pins key q (c, m, s) =
      let P = λ (o : Option (Quota K)). Inv (created now pins key q o).0 in
      let counted = record q { key_count = q.key_count + 1 } in
      if-cases P (q.cfg.max_keys == 0) (some counted)
        (if leb q.cfg.max_keys q.key_count then none else some counted)
        (λ e. (omega (arith, c), inl (ground (arith, e)), s))
        (λ e.
          if-cases P (leb q.cfg.max_keys q.key_count) none (some counted)
            (λ k.
              if-intro (λ (x : Quota K). Inv x) q.cfg.on_max_keys
                (record q { on_max_keys_calls = key ∷ q.on_max_keys_calls }) q (c, m, s) (c, m, s))
            (λ k. (omega (arith, c), inr (ground (arith, k, c)), s)))

  module _ (same : K → K → Bool) where
    write-Inv : (key : K) (b : Bucket) (q : Quota K) → Inv q → Inv (write same key b q)
    write-Inv key b q (c, m, s) =
        let l = length-replace same key b q.entries in
        (c ∙ sym l, elim m [ inl z ↦ inl z | inr k ↦ inr (omega (arith, k, l)) ], s)

    get_or_create_at-Inv :
        (now : ℕ) (key : K) (o : Option Bucket) (q : Quota K)
        → Inv q
        → Inv (get_or_create_at same now key o q).0
    get_or_create_at-Inv now key none q v = created-Inv now 0 key q v
    get_or_create_at-Inv now key (some b) q v = write-Inv key (touched same now b) q v

    check-Inv :
        (now : ℕ) (n : ℤ) (key : K) (x : Quota K × Option Bucket)
        → Inv x.0
        → Inv (check same now n key x).0
    check-Inv now n key (q, none) v = record_ok-Inv false q v
    check-Inv now n key (q, some b) v =
        let (l, ok) = allow_n now n b.limiter in
        record_ok-Inv ok (write same key (record b { limiter = l }) q)
          (write-Inv key (record b { limiter = l }) q v)

    count_refusal-Inv : (x : Quota K × Option Bucket) → Inv x.0 → Inv (count_refusal same x).0
    count_refusal-Inv (q, none) v = v
    count_refusal-Inv (q, some b) v = v

    pinned_at-Inv :
        (now : ℕ) (key : K) (o : Option Bucket) (q : Quota K)
        → Inv q
        → Inv (count_refusal same (pinned_at same now key o q)).0
    pinned_at-Inv now key none q v =
        count_refusal-Inv (created now 1 key q (reserve_key q)) (created-Inv now 1 key q v)
    pinned_at-Inv now key (some b) q v =
        write-Inv key (record b { pins = b.pins + 1; last_access = now }) q v

    unpin_at-Inv : (key : K) (o : Option Bucket) (q : Quota K) → Inv q → Inv (unpin_at same key o q)
    unpin_at-Inv key none q v = v
    unpin_at-Inv key (some b) q v = write-Inv key (record b { pins = b.pins - 1 }) q v

    remove_at-Inv :
        (key : K) (o : Option Bucket) (q : Quota K)
        → find same key q.entries ≡ o
        → Inv q
        → Inv (remove_at same key o q).0
    remove_at-Inv key none q f v = v
    remove_at-Inv key (some b) q f v =
        let less = length-erase same key b q.entries f in
        let fewer =
          fewer-Inv q (erase same key q.entries) (q.key_count - 1) (omega (arith, less, v.0))
            (omega (arith, less)) v in
        if-intro (λ (x : Quota K × Bool). Inv x.0) (ltb 0 b.pins) (q, false) _ v fewer

  module _ (hash : K → ℕ) where
    evict_shard-Inv : (now i : ℕ) (q : Quota K) → Inv q → Inv (evict_shard hash now i q)
    unfolding evict_shard
    evict_shard-Inv now i q v =
        let gone = λ (e : Entry K). (shard_for hash q e == i) && is_stale hash now q e in
        let split = keep_if-split gone q.entries in
        fewer-Inv q (keep_if (λ e. not (gone e)) q.entries) (q.key_count - count_if gone q.entries)
          (omega (arith, split, v.0)) (omega (arith, split)) v

    evict_shards-Inv : (now i k : ℕ) (q : Quota K) → Inv q → Inv (evict_shards hash now i k q)
    unfolding evict_shards
    evict_shards-Inv now i zero q v = v
    evict_shards-Inv now i (suc k) q v =
        evict_shards-Inv now (i + 1) k (evict_shard hash now i q) (evict_shard-Inv now i q v)

    reset-Inv : (q : Quota K) → Inv q → Inv (reset hash q)
    unfolding reset
    reset-Inv q (c, m, s) =
        let (q', remaining) = reset_shards hash 0 q.cfg.shards (q, 0) in
        let (e, l, g) =
          reset_shards-balance hash 0 q.cfg.shards q 0
            (let all = all_to_come hash q q.entries in omega (arith, all)) in
        let shards : q'.cfg.shards ≡ q.cfg.shards = ap (λ k. k.shards) g in
        let most : q'.cfg.max_keys ≡ q.cfg.max_keys = ap (λ k. k.max_keys) g in
        let nothing : to_come hash (0 + q.cfg.shards) q' ≡ 0 =
          ap (λ j. to_come hash j q')
            (let d : 0 + q.cfg.shards ≡ q'.cfg.shards = omega (arith, shards) in d)
          ∙ none_to_come hash q' q'.entries (omega (arith, shards, s)) in
        (
          omega (arith, e, nothing),
          elim m [ inl z ↦ inl (most ∙ z) | inr b ↦ inr (omega (arith, b, l, most)) ],
          omega (arith, shards, s),
        )

  module _ (same : K → K → Bool) (hash : K → ℕ) where
    step-Inv : (op : QuotaOp K) (q : Quota K) → Inv q → Inv (step same hash op q)
    unfolding step quota_allow_n get_or_create bucket_for_wait unpin remove evict close reset_stats
    step-Inv (op_allow now n key) q v =
        if-intro (λ (x : Quota K × Bool). Inv x.0) q.is_shut (q, false) _ v
          (check-Inv same now n key (get_or_create same now key q)
            (get_or_create_at-Inv same now key (find same key q.entries) q v))
    step-Inv (op_pin now key) q v = pinned_at-Inv same now key (find same key q.entries) q v
    step-Inv (op_unpin key) q v = unpin_at-Inv same key (find same key q.entries) q v
    step-Inv (op_remove key) q v = remove_at-Inv same key (find same key q.entries) q refl v
    step-Inv op_reset q v = reset-Inv hash q v
    step-Inv op_close q v = v
    step-Inv op_reset_stats q v = v
    step-Inv (op_evict now) q v = evict_shards-Inv hash now 0 q.cfg.shards q v

    run-Inv : (ops : List (QuotaOp K)) (q : Quota K) → Inv q → Inv (run same hash ops q)
    run-Inv [] q v = v
    run-Inv (op ∷ ops) q v = run-Inv ops (step same hash op q) (step-Inv op q v)

    -- For every sequence of operations on a new quota, whatever options it got, each operation without
    -- another in between: the key count is the number of buckets, and with a maximum of keys there
    -- are no more buckets than that.
    pub run-keys :
        (ops : List (QuotaOp K)) (opts : List (Option QuotaOption))
        → let q = run same hash ops (new opts) in
          (q.key_count ≡ length q.entries)
          × ((q.cfg.max_keys ≡ 0) ⊎ (length q.entries ≤ q.cfg.max_keys))
    unfolding new
    run-keys ops opts =
        let v = run-Inv ops (new opts) (refl, inr (omega arith), new_config-shards opts) in
        (v.0, v.1)
