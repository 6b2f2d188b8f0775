-- ===== src/Quotax/Resets.antt =====
-- quotax/quotax.go: `Reset`, which stores its count of keys after the last shard is unlocked, with
-- another goroutine in between.
use urx.Base.{
  ℕ, zero, suc, ◌+◌, ◌≡◌, refl, sym, ap, subst, ◌∙◌, Bool, false, Option, none, some, [], ◌∷◌,
  arith, length, if◌then◌else◌, if_false, if-intro, ◌<◌, leb, ◌==◌,
}
use urx.Quotax.Table.{Entry, find}
use urx.Quotax.Quota.{
  Quota, new_bucket, reserve_key, created, get_or_create, get_or_create_at, reset_shard,
  reset_shards, store_count,
}

module _ {ℓ} {K : Type ℓ} (same : K → K → Bool) (hash : K → ℕ) where
  -- A first key is created while `Reset` stands after the last shard, and a second one after it.
  abbrev pub overtaken : ℕ → K → K → Quota K → Quota K
  overtaken now a b q =
      let (q', remaining) = reset_shards hash 0 q.cfg.shards (q, 0) in
      (get_or_create same now b (store_count hash ((get_or_create same now a q').0, remaining))).0

  reset_shards-empty :
      (i k : ℕ) (q : Quota K)
      → reset_shards hash i k (record q { entries = [] }, 0) ≡ (record q { entries = [] }, 0)
  unfolding reset_shards reset_shard
  reset_shards-empty i zero q = refl
  reset_shards-empty i (suc k) q = reset_shards-empty (i + 1) k q

  reserve_key-room :
      (q : Quota K)
      → q.key_count < q.cfg.max_keys
      → reserve_key q ≡ some (record q { key_count = q.key_count + 1 })
  unfolding reserve_key
  reserve_key-room q h =
      let taken = some (record q { key_count = q.key_count + 1 }) in
      if-intro (λ (o : Option (Quota K)). o ≡ taken) (q.cfg.max_keys == 0) taken
        (if leb q.cfg.max_keys q.key_count then none else taken) refl
        (if_false (leb q.cfg.max_keys q.key_count) none taken (ground (arith, h)))

  get_or_create-new :
      (now : ℕ) (key : K) (q : Quota K)
      → find same key q.entries ≡ none
      → q.key_count < q.cfg.max_keys
      → (get_or_create same now key q).0 ≡ record q {
        entries = record { key = key; bucket = new_bucket now 0 q.cfg } ∷ q.entries;
        key_count = q.key_count + 1;
      }
  unfolding get_or_create
  get_or_create-new now key q f h =
      ap (λ o. (get_or_create_at same now key o q).0) f
      ∙ ap (λ o. (created now 0 key q o).0) (reserve_key-room q h)

  -- From a quota without keys and with a maximum of one key: if a goroutine creates a key after `Reset`
  -- has left the key's shard and before it stores its count, that key is not counted, and a second
  -- key is let in over the maximum, with a count of 1.
  pub reset_overtakes_keys :
      (now : ℕ) (a b : K) (q : Quota K)
      → q.cfg.max_keys ≡ 1
      → same a b ≡ false
      → let q' = overtaken now a b (record q { entries = []; key_count = 0 }) in
        (length q'.entries ≡ 2) × (q'.key_count ≡ 1)
  reset_overtakes_keys now a b q m d =
      let idle = record q { entries = []; key_count = 0 } in
      let first : Entry K = record { key = a; bucket = new_bucket now 0 q.cfg } in
      let stored = record idle { entries = first ∷ [] } in
      let P = λ (x : Quota K). (length x.entries ≡ 2) × (x.key_count ≡ 1) in
      let path : overtaken now a b idle ≡ (get_or_create same now b stored).0 =
        ap
          (λ x.
            (get_or_create same now b (store_count hash ((get_or_create same now a x.0).0, x.1))).0)
          (reset_shards-empty 0 q.cfg.shards idle)
        ∙ ap (λ x. (get_or_create same now b (store_count hash (x, 0))).0)
            (get_or_create-new now a idle refl (omega (arith, m))) in
      subst P
        (sym (
          path
          ∙ get_or_create-new now b stored (if_false (same a b) (some first.bucket) none d)
              (omega (arith, m))))
        (refl, refl)
