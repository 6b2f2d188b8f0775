-- ===== src/Quotax/Quota.antt =====
-- quotax/quotax.go: the methods that do not block, and the ends of those that do. A shard is locked
-- for the whole of a step. `hash` is `maphash.String` with the process's seed.
use urx.Base.{
  ℕ, zero, suc, ◌+◌, ◌-◌, ◌%◌, Bool, true, false, ◌&&◌, ◌||◌, not, Option, none, some, List, [],
  ◌∷◌, count_if, if◌then◌else◌, ltb, leb, ◌==◌, u64,
}
use urx.Base.Int.{ℤ}
use urx.Ratex.Bucket.{allow_n}
use urx.Ratex.Bucket
use urx.Quotax.Config.{Config, QuotaOption, new_config, limiter_options}
use urx.Quotax.Table.{Bucket, Entry, keep_if, find, replace, erase}

pub record Quota {ℓ} (K : Type ℓ) : Type ℓ where
  pub cfg : Config
  pub entries : List (Entry K)
  pub key_count : ℕ
  pub allowed : ℕ  -- int64
  pub limited : ℕ  -- int64
  pub is_shut : Bool
  -- the calls of the callback
  pub on_max_keys_calls : List K

pub record Stats : Type 0 where
  pub keys : ℕ
  pub allowed : ℕ
  pub limited : ℕ

abbrev pub new_bucket : ℕ → ℕ → Config → Bucket
new_bucket now pins c = record {
  limiter = Bucket.new now (limiter_options c);
  last_access = now;
  pins = pins;
}

module _ {ℓ} {K : Type ℓ} where
  unfoldable pub new : List (Option QuotaOption) → Quota K
  unfolding new_config
  new opts = record {
    cfg = new_config opts;
    entries = [];
    key_count = 0;
    allowed = 0;
    limited = 0;
    is_shut = false;
    on_max_keys_calls = [];
  }

  -- `record`
  abbrev pub record_ok : Bool → Quota K → Quota K
  record_ok true q = record q { allowed = u64 (q.allowed + 1) }
  record_ok false q = record q { limited = u64 (q.limited + 1) }

  unfoldable pub reserve_key : Quota K → Option (Quota K)
  reserve_key q =
      if q.cfg.max_keys == 0
      then some (record q { key_count = q.key_count + 1 })
      else (if leb q.cfg.max_keys q.key_count
          then none
          else some (record q { key_count = q.key_count + 1 }))

  unfoldable pub invoke_on_max_keys : K → Quota K → Quota K
  invoke_on_max_keys key q =
      if q.cfg.on_max_keys then record q { on_max_keys_calls = key ∷ q.on_max_keys_calls } else q

  abbrev pub created : ℕ → ℕ → K → Quota K → Option (Quota K) → Quota K × Option Bucket
  created now pins key q none = (invoke_on_max_keys key q, none)
  created now pins key q (some q') =
      let b = new_bucket now pins q.cfg in
      (record q' { entries = record { key = key; bucket = b } ∷ q'.entries }, some b)

  module _ (same : K → K → Bool) where
    abbrev pub write : K → Bucket → Quota K → Quota K
    write key b q = record q { entries = replace same key b q.entries }

    abbrev pub touched : ℕ → Bucket → Bucket
    touched now b = record b { last_access = now }

    -- `getOrCreate`, by what the map has.
    abbrev pub get_or_create_at : ℕ → K → Option Bucket → Quota K → Quota K × Option Bucket
    get_or_create_at now key (some b) q = (write key (touched now b) q, some (touched now b))
    get_or_create_at now key none q = created now 0 key q (reserve_key q)

    unfoldable pub get_or_create : ℕ → K → Quota K → Quota K × Option Bucket
    unfolding reserve_key invoke_on_max_keys
    get_or_create now key q = get_or_create_at now key (find same key q.entries) q

    -- The check of a bucket's limiter for `n` tokens.
    abbrev pub check : ℕ → ℤ → K → Quota K × Option Bucket → Quota K × Bool
    check now n key (q, none) = (record_ok false q, false)
    check now n key (q, some b) =
        let (l, ok) = allow_n now n b.limiter in
        (record_ok ok (write key (record b { limiter = l }) q), ok)

    -- `lookup` and then `getOrCreate` do together what `getOrCreate` does.
    unfoldable pub quota_allow_n : ℕ → ℤ → K → Quota K → Quota K × Bool
    unfolding get_or_create
    quota_allow_n now n key q =
        if q.is_shut then (q, false) else check now n key (get_or_create now key q)

    -- `bucketForWait`: the bucket is pinned.
    abbrev pub pinned_at : ℕ → K → Option Bucket → Quota K → Quota K × Option Bucket
    pinned_at now key (some b) q =
        let b' = record b { pins = b.pins + 1; last_access = now } in (write key b' q, some b')
    pinned_at now key none q = created now 1 key q (reserve_key q)

    abbrev pub count_refusal : Quota K × Option Bucket → Quota K × Option Bucket
    count_refusal (q, none) = (record_ok false q, none)
    count_refusal (q, some b) = (q, some b)

    unfoldable pub bucket_for_wait : ℕ → K → Quota K → Quota K × Option Bucket
    unfolding reserve_key invoke_on_max_keys
    bucket_for_wait now key q = count_refusal (pinned_at now key (find same key q.entries) q)

    abbrev pub unpin_at : K → Option Bucket → Quota K → Quota K
    unpin_at key none q = q
    unpin_at key (some b) q = write key (record b { pins = b.pins - 1 }) q

    unfoldable pub unpin : K → Quota K → Quota K
    unpin key q = unpin_at key (find same key q.entries) q

    abbrev pub remove_at : K → Option Bucket → Quota K → Quota K × Bool
    remove_at key none q = (q, false)
    remove_at key (some b) q =
        if ltb 0 b.pins
        then (q, false)
        else (record q { entries = erase same key q.entries; key_count = q.key_count - 1 }, true)

    unfoldable pub remove : K → Quota K → Quota K × Bool
    remove key q = remove_at key (find same key q.entries) q

  module _ (hash : K → ℕ) where
    abbrev pub shard_for : Quota K → Entry K → ℕ
    shard_for q e = hash e.key % q.cfg.shards

    abbrev pub is_pinned : Entry K → Bool
    is_pinned e = ltb 0 e.bucket.pins

    -- `Reset` of one shard: what it has pinned stays, and is counted.
    unfoldable pub reset_shard : ℕ → Quota K × ℕ → Quota K × ℕ
    reset_shard i (q, remaining) = (
      record q { entries = keep_if (λ e. not (shard_for q e == i) || is_pinned e) q.entries },
      remaining + count_if (λ e. (shard_for q e == i) && is_pinned e) q.entries,
    )

    -- The shards from number `i` on, `k` of them.
    unfoldable pub reset_shards : ℕ → ℕ → Quota K × ℕ → Quota K × ℕ
    unfolding reset_shard
    reset_shards i zero x = x
    reset_shards i (suc k) x = reset_shards (i + 1) k (reset_shard i x)

    abbrev pub store_count : Quota K × ℕ → Quota K
    store_count (q, remaining) = record q { key_count = remaining }

    -- `Reset`, where no other goroutine runs in between.
    unfoldable pub reset : Quota K → Quota K
    unfolding reset_shards
    reset q = store_count (reset_shards 0 q.cfg.shards (q, 0))

    -- Not pinned, and not used since the cutoff, `now` less the time to live.
    abbrev pub is_stale : ℕ → Quota K → Entry K → Bool
    is_stale now q e = not (is_pinned e) && ltb (e.bucket.last_access + q.cfg.eviction_ttl) now

    unfoldable pub evict_shard : ℕ → ℕ → Quota K → Quota K
    evict_shard now i q = record q {
      entries = keep_if (λ e. not ((shard_for q e == i) && is_stale now q e)) q.entries;
      key_count = q.key_count - count_if (λ e. (shard_for q e == i) && is_stale now q e) q.entries;
    }

    unfoldable pub evict_shards : ℕ → ℕ → ℕ → Quota K → Quota K
    unfolding evict_shard
    evict_shards now i zero q = q
    evict_shards now i (suc k) q = evict_shards now (i + 1) k (evict_shard now i q)

    unfoldable pub evict : ℕ → Quota K → Quota K
    unfolding evict_shards
    evict now q = evict_shards now 0 q.cfg.shards q

  unfoldable pub rollback_allowed : Quota K → Quota K
  rollback_allowed q = if leb q.allowed 0 then q else record q { allowed = q.allowed - 1 }

  unfoldable pub close : Quota K → Quota K
  close q = record q { is_shut = true }

  unfoldable pub reset_stats : Quota K → Quota K
  reset_stats q = record q { allowed = 0; limited = 0 }

  unfoldable pub stats : Quota K → Stats
  stats q = record { keys = q.key_count; allowed = q.allowed; limited = q.limited }
