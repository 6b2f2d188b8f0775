-- ===== src/Quotax/Gates.antt =====
-- quotax/quotax.go: whether a quota is open, over its operations.
use urx.Base.{
  ℕ, zero, suc, ◌+◌, ◌≡◌, refl, ◌∙◌, Bool, true, false, Option, none, some, ◌∷◌, if◌then◌else◌,
  if-intro, ltb, leb, ◌==◌,
}
use urx.Base.Int.{ℤ}
use urx.Ratex.Bucket.{allow_n}
use urx.Quotax.Table.{Bucket, find}
use urx.Quotax.Quota.{
  Quota, reserve_key, invoke_on_max_keys, created, record_ok, write, get_or_create,
  get_or_create_at, check, quota_allow_n, pinned_at, count_refusal, bucket_for_wait, unpin,
  unpin_at, remove, remove_at, reset_shard, reset_shards, reset, evict_shard, evict_shards, evict,
  close, reset_stats,
}
use urx.Quotax.Ops.{
  QuotaOp, op_allow, op_pin, op_unpin, op_remove, op_reset, op_close, op_reset_stats, op_evict,
  step,
}

module _ {ℓ} {K : Type ℓ} where
  abbrev pub shut_after : QuotaOp K → Bool → Bool
  shut_after op_close s = true
  shut_after _ s = s

  -- Whether an operation leaves the quota open is its own doing alone.
  reserved-shut :
      (now pins : ℕ) (key : K) (q : Quota K)
      → (created now pins key q (reserve_key q)).0.is_shut ≡ q.is_shut
  unfolding reserve_key invoke_on_max_keys
  reserved-shut now pins key q =
      let P = λ (o : Option (Quota K)). (created now pins key q o).0.is_shut ≡ q.is_shut in
      let counted = record q { key_count = q.key_count + 1 } in
      let refused : P none =
        if-intro (λ (x : Quota K). x.is_shut ≡ q.is_shut) q.cfg.on_max_keys
          (record q { on_max_keys_calls = key ∷ q.on_max_keys_calls }) q refl refl in
      if-intro P (q.cfg.max_keys == 0) (some counted)
        (if leb q.cfg.max_keys q.key_count then none else some counted) refl
        (if-intro P (leb q.cfg.max_keys q.key_count) none (some counted) refused refl)

  pub record_ok-keeps :
      (ok : Bool) (q : Quota K)
      → ((record_ok ok q).entries ≡ q.entries)
        × ((record_ok ok q).is_shut ≡ q.is_shut)
        × ((record_ok ok q).cfg ≡ q.cfg)
  record_ok-keeps true q = (refl, refl, refl)
  record_ok-keeps false q = (refl, refl, refl)

  module _ (same : K → K → Bool) where
    get_or_create_at-shut :
        (now : ℕ) (key : K) (o : Option Bucket) (q : Quota K)
        → (get_or_create_at same now key o q).0.is_shut ≡ q.is_shut
    get_or_create_at-shut now key none q = reserved-shut now 0 key q
    get_or_create_at-shut now key (some b) q = refl

    check-shut :
        (now : ℕ) (n : ℤ) (key : K) (x : Quota K × Option Bucket)
        → (check same now n key x).0.is_shut ≡ x.0.is_shut
    check-shut now n key (q, none) = refl
    check-shut now n key (q, some b) =
        let (l, ok) = allow_n now n b.limiter in
        (record_ok-keeps ok (write same key (record b { limiter = l }) q)).1

    pub count_refusal-keeps :
        (x : Quota K × Option Bucket)
        → ((count_refusal same x).0.entries ≡ x.0.entries)
          × ((count_refusal same x).0.is_shut ≡ x.0.is_shut)
    count_refusal-keeps (q, none) = (refl, refl)
    count_refusal-keeps (q, some b) = (refl, refl)

    pinned_at-shut :
        (now : ℕ) (key : K) (o : Option Bucket) (q : Quota K)
        → (count_refusal same (pinned_at same now key o q)).0.is_shut ≡ q.is_shut
    pinned_at-shut now key none q =
        (count_refusal-keeps (created now 1 key q (reserve_key q))).1 ∙ reserved-shut now 1 key q
    pinned_at-shut now key (some b) q = refl

    unpin_at-shut :
        (key : K) (o : Option Bucket) (q : Quota K) → (unpin_at same key o q).is_shut ≡ q.is_shut
    unpin_at-shut key none q = refl
    unpin_at-shut key (some b) q = refl

    remove_at-shut :
        (key : K) (o : Option Bucket) (q : Quota K) → (remove_at same key o q).0.is_shut ≡ q.is_shut
    remove_at-shut key none q = refl
    remove_at-shut key (some b) q =
        if-intro (λ (x : Quota K × Bool). x.0.is_shut ≡ q.is_shut) (ltb 0 b.pins) (q, false) _ refl
          refl

  module _ (hash : K → ℕ) where
    reset_shards-shut :
        (i k : ℕ) (x : Quota K × ℕ) → (reset_shards hash i k x).0.is_shut ≡ x.0.is_shut
    unfolding reset_shards reset_shard
    reset_shards-shut i zero x = refl
    reset_shards-shut i (suc k) x = reset_shards-shut (i + 1) k (reset_shard hash i x)

    evict_shards-shut :
        (now i k : ℕ) (q : Quota K) → (evict_shards hash now i k q).is_shut ≡ q.is_shut
    unfolding evict_shards evict_shard
    evict_shards-shut now i zero q = refl
    evict_shards-shut now i (suc k) q = evict_shards-shut now (i + 1) k (evict_shard hash now i q)

  module _ (same : K → K → Bool) (hash : K → ℕ) where
    pub step-shut :
        (op : QuotaOp K) (q : Quota K) → (step same hash op q).is_shut ≡ shut_after op q.is_shut
    unfolding step quota_allow_n get_or_create bucket_for_wait unpin remove reset evict close
        reset_stats
    step-shut (op_allow now n key) q =
        if-intro (λ (x : Quota K × Bool). x.0.is_shut ≡ q.is_shut) q.is_shut (q, false) _ refl
          (check-shut same now n key (get_or_create same now key q)
            ∙ get_or_create_at-shut same now key (find same key q.entries) q)
    step-shut (op_pin now key) q = pinned_at-shut same now key (find same key q.entries) q
    step-shut (op_unpin key) q = unpin_at-shut same key (find same key q.entries) q
    step-shut (op_remove key) q = remove_at-shut same key (find same key q.entries) q
    step-shut op_reset q = reset_shards-shut hash 0 q.cfg.shards (q, 0)
    step-shut op_close q = refl
    step-shut op_reset_stats q = refl
    step-shut (op_evict now) q = evict_shards-shut hash now 0 q.cfg.shards q
