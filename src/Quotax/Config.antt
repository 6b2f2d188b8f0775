-- ===== src/Quotax/Config.antt =====
-- quotax/options.go. A rate is a fraction, which an option takes as an integer over one more than a
-- number. A burst below 0 is kept as 0: the floor makes 1 of both. Of the callback the configuration
-- says whether there is one.
use urx.Base.{
  ℕ, zero, suc, if-intro, ◌-◌, ◌<◌, Bool, false, Option, none, some, List, [], ◌∷◌, arith,
  if◌then◌else◌, ltb,
}
use urx.Base.Int.{ℤ, pos, negsuc, pos_part, set_if_pos}
use urx.Ratex.Config.{LimiterOption, with_rate, with_burst}

pub record Config : Type 0 where
  pub rate_num : ℕ
  pub rate_den : ℕ
  pub burst : ℕ
  pub shards : ℕ
  pub max_keys : ℕ
  pub eviction_ttl : ℕ
  pub eviction_interval : ℕ
  pub on_max_keys : Bool

pub data QuotaOption : Type 0 where
  quota_rate : ℤ → ℕ → QuotaOption
  quota_burst with_shards with_max_keys : ℤ → QuotaOption
  with_eviction_ttl with_eviction_interval : ℤ → QuotaOption
  with_on_max_keys : Bool → QuotaOption

-- `if r > 0 { c.rate = r }`
abbrev set_rate : ℤ → ℕ → Config → Config
set_rate (pos (suc n)) d c = record c { rate_num = suc n; rate_den = suc d }
set_rate _ d c = c

-- `if n >= 0 { c.maxKeys = n }`
abbrev set_max_keys : ℤ → Config → Config
set_max_keys (pos n) c = record c { max_keys = n }
set_max_keys (negsuc n) c = c

unfoldable pub apply : QuotaOption → Config → Config
apply (quota_rate n d) c = set_rate n d c
apply (quota_burst n) c = record c { burst = pos_part n }
apply (with_shards n) c = record c { shards = set_if_pos n c.shards }
apply (with_max_keys n) c = set_max_keys n c
apply (with_eviction_ttl d) c = record c { eviction_ttl = set_if_pos d c.eviction_ttl }
apply (with_eviction_interval d) c = record c {
  eviction_interval = set_if_pos d c.eviction_interval;
}
apply (with_on_max_keys has_fn) c = record c { on_max_keys = has_fn }

unfoldable pub apply_all : List (Option QuotaOption) → Config → Config
unfolding apply
apply_all [] c = c
apply_all (none ∷ opts) c = apply_all opts c
apply_all (some opt ∷ opts) c = apply_all opts (apply opt c)

abbrev pub defaults : Config
defaults = record {
  rate_num = 10;
  rate_den = 1;
  burst = 20;
  shards = 64;
  max_keys = 0;
  eviction_ttl = 900_000_000_000;
  eviction_interval = 60_000_000_000;
  on_max_keys = false;
}

abbrev floors : Config → Config
floors c =
    let c' = if ltb 0 c.rate_num then c else record c { rate_num = 10; rate_den = 1 } in
    record c' { burst = if ltb c'.burst 1 then 1 else c'.burst }

unfoldable pub new_config : List (Option QuotaOption) → Config
unfolding apply_all
new_config opts = floors (apply_all opts defaults)

-- `ratex.WithRate(q.cfg.rate), ratex.WithBurst(q.cfg.burst)`
abbrev pub limiter_options : Config → List (Option LimiterOption)
limiter_options c =
    some (with_rate (pos c.rate_num) (c.rate_den - 1)) ∷ some (with_burst (pos c.burst)) ∷ []

apply_all-shards :
    (opts : List (Option QuotaOption)) (c : Config) → 0 < c.shards → 0 < (apply_all opts c).shards
unfolding apply_all apply
apply_all-shards [] c h = h
apply_all-shards (none ∷ opts) c h = apply_all-shards opts c h
apply_all-shards (some (quota_rate (pos (suc n)) d) ∷ opts) c h = apply_all-shards opts _ h
apply_all-shards (some (quota_rate (pos zero) d) ∷ opts) c h = apply_all-shards opts _ h
apply_all-shards (some (quota_rate (negsuc n) d) ∷ opts) c h = apply_all-shards opts _ h
apply_all-shards (some (quota_burst n) ∷ opts) c h = apply_all-shards opts _ h
apply_all-shards (some (with_shards (pos (suc n))) ∷ opts) c h =
    apply_all-shards opts _ (omega arith)
apply_all-shards (some (with_shards (pos zero)) ∷ opts) c h = apply_all-shards opts _ h
apply_all-shards (some (with_shards (negsuc n)) ∷ opts) c h = apply_all-shards opts _ h
apply_all-shards (some (with_max_keys (pos n)) ∷ opts) c h = apply_all-shards opts _ h
apply_all-shards (some (with_max_keys (negsuc n)) ∷ opts) c h = apply_all-shards opts _ h
apply_all-shards (some (with_eviction_ttl d) ∷ opts) c h = apply_all-shards opts _ h
apply_all-shards (some (with_eviction_interval d) ∷ opts) c h = apply_all-shards opts _ h
apply_all-shards (some (with_on_max_keys f) ∷ opts) c h = apply_all-shards opts _ h

-- Whatever options are given, there is a shard.
pub new_config-shards : (opts : List (Option QuotaOption)) → 0 < (new_config opts).shards
unfolding new_config
new_config-shards opts =
    let c = apply_all opts defaults in
    let h = apply_all-shards opts defaults (omega arith) in
    if-intro (λ (x : Config). 0 < x.shards) (ltb 0 c.rate_num) c
      (record c { rate_num = 10; rate_den = 1 }) h h
