-- ===== src/Lrux/Types.antt =====
-- lrux/lrux.go, types.go and errors.go: the cache's data. The nodes stand in the order of the
-- intrusive list, from `head` to `tail`, which Lists justifies; the map `items` leads from a key to
-- the node that has it, and `size` is the number of nodes. Times are nanoseconds, and the zero time
-- is `none`. `fired` logs the calls of the eviction callback, which runs under recover.
use urx.Base.{ℕ, String, Bool, false, Option, none, some, List, ◌++◌, if◌then◌else◌, ltb, u64, ◌+◌}

pub data EvictionReason : Type 0 where
  by_capacity by_expiry by_delete by_clear by_replace : EvictionReason

abbrev pub EvictionReason_string : EvictionReason → String
EvictionReason_string by_capacity = "capacity"
EvictionReason_string by_expiry = "expired"
EvictionReason_string by_delete = "deleted"
EvictionReason_string by_clear = "cleared"
EvictionReason_string by_replace = "replaced"

module _ {ℓ κ} (K : Type ℓ) (V : Type κ) where
  pub record Node : Type (ℓ ⊔ κ) where
    pub key : K
    pub value : V
    pub created_at : ℕ
    pub accessed_at : ℕ
    pub expires_at : Option ℕ

  pub record EvictEvent : Type (ℓ ⊔ κ) where
    pub key : K
    pub value : V
    pub reason : EvictionReason

  pub record Cache : Type (ℓ ⊔ κ) where
    pub nodes : List Node
    pub capacity : ℕ
    pub ttl : ℕ
    pub has_hook : Bool
    pub hits : ℕ
    pub misses : ℕ
    pub evictions : ℕ
    pub closed : Bool
    pub fired : List EvictEvent

module _ {ℓ κ} {K : Type ℓ} {V : Type κ} where
  abbrev pub event_of : EvictionReason → Node K V → EvictEvent K V
  event_of why n = record { key = n.key; value = n.value; reason = why }

  abbrev pub is_expired : ℕ → Node K V → Bool
  is_expired now n = elim n.expires_at [ none ↦ false | some e ↦ ltb e now ]

  -- `fireCallbacks`: events are collected only for a configured callback.
  abbrev pub fire : List (EvictEvent K V) → Cache K V → Cache K V
  fire events c = record c { fired = if c.has_hook then c.fired ++ events else c.fired }

  abbrev pub count_hit : Cache K V → Cache K V
  count_hit c = record c { hits = u64 (c.hits + 1) }

  abbrev pub count_miss : Cache K V → Cache K V
  count_miss c = record c { misses = u64 (c.misses + 1) }

  abbrev pub count_eviction : Cache K V → Cache K V
  count_eviction c = record c { evictions = u64 (c.evictions + 1) }
