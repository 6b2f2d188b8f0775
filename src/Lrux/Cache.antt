-- ===== src/Lrux/Cache.antt =====
-- lrux/lrux.go: the operations on single keys, and the capacity. `same` is Go's `==` on the keys.
-- Where an operation reads the clock twice, it takes both readings.
use urx.Base.{
  ℕ, zero, suc, ◌+◌, ◌-◌, Bool, true, false, ◌&&◌, Option, none, some, List, [], ◌∷◌, ◌++◌,
  if◌then◌else◌, ltb, length,
}
use urx.Base.Int.{ℤ, pos, pos_part}
use urx.Lrux.Types.{
  EvictionReason, by_capacity, by_expiry, by_delete, by_replace, Node, EvictEvent, Cache, event_of,
  is_expired, fire, count_hit, count_miss, count_eviction,
}

abbrev pub split_last {ℓ} : {A : Type ℓ} → List A → Option (List A × A)
split_last [] = none
split_last (x ∷ xs) = elim (split_last xs) [
  | none ↦ some ([], x)
  | some (init, last) ↦ some (x ∷ init, last)
]

abbrev pub is_some {ℓ} : {A : Type ℓ} → Option A → Bool
is_some none = false
is_some (some a) = true

module _ {ℓ κ} {K : Type ℓ} {V : Type κ} where
  unfoldable pub new : ℤ → ℤ → Bool → Cache K V
  new capacity ttl has_hook = record {
    nodes = [];
    capacity = pos_part capacity;
    ttl = pos_part ttl;
    has_hook = has_hook;
    hits = 0;
    misses = 0;
    evictions = 0;
    closed = false;
    fired = [];
  }

  unfoldable pub expire_time : ℕ → ℤ → Cache K V → Option ℕ
  expire_time now ttl c =
      if ltb 0 (pos_part ttl)
      then some (now + pos_part ttl)
      else (if ltb 0 c.ttl then some (now + c.ttl) else none)

  -- `removeTailLocked`, with the event it returns.
  unfoldable pub remove_tail : Cache K V → Cache K V × List (EvictEvent K V)
  remove_tail c = elim (split_last c.nodes) [
    | none ↦ (c, [])
    | some (init, last) ↦ (record c { nodes = init }, event_of by_capacity last ∷ [])
  ]

  abbrev pub over_capacity : Cache K V → Bool
  over_capacity c = ltb 0 c.capacity && ltb c.capacity (length c.nodes)

  -- One entry too many gives way.
  unfoldable pub evict_one : Cache K V → Cache K V
  unfolding remove_tail
  evict_one c =
      if over_capacity c
      then (let (c', events) = remove_tail c in fire events (count_eviction c'))
      else c

  -- The loop of `Resize` and `SetMulti`: entries give way while there are too many. `Resize` also
  -- stops where nothing is left and there is no event.
  abbrev pub has_event : Bool → List (EvictEvent K V) → Bool
  has_event has_hook [] = false
  has_event has_hook (_ ∷ _) = has_hook

  abbrev pub nothing_left : Bool → List (Node K V) → Bool
  nothing_left true ns = false
  nothing_left false [] = true
  nothing_left false (_ ∷ _) = false

  unfoldable pub evict_loop : Bool → ℕ → Cache K V → Cache K V × List (EvictEvent K V)
  unfolding remove_tail
  evict_loop breaks zero c = (c, [])
  evict_loop breaks (suc fuel) c =
      let (c', events) = remove_tail c in
      let (c'', more) = evict_loop breaks fuel (count_eviction c') in
      if over_capacity c
      then (if breaks && nothing_left (has_event c.has_hook events) c'.nodes
          then (c', [])
          else (c'', events ++ more))
      else (c, [])

  unfoldable pub resize : ℤ → Cache K V → Cache K V
  unfolding evict_loop
  resize capacity c =
      let resized = record c { capacity = pos_part capacity } in
      let (c', events) = evict_loop true (length c.nodes) resized in
      if c.closed then c else fire events c'

  -- The expiry that `Touch` gives: the window since the last access anew, or the global TTL.
  unfoldable pub slide_expiration : ℕ → ℕ → Node K V → Option ℕ
  slide_expiration ttl now n = elim n.expires_at [
    | some e ↦ if ltb n.accessed_at e then some (now + (e - n.accessed_at)) else some e
    | none ↦ if ltb 0 ttl then some (now + ttl) else none
  ]

module _ {ℓ κ} {K : Type ℓ} {V : Type κ} (same : K → K → Bool) where
  abbrev pub find : K → List (Node K V) → Option (Node K V)
  find key [] = none
  find key (n ∷ ns) = let rest = find key ns in if same n.key key then some n else rest

  abbrev pub erase : K → List (Node K V) → List (Node K V)
  erase key [] = []
  erase key (n ∷ ns) = let rest = erase key ns in if same n.key key then ns else n ∷ rest

  abbrev pub move_to_front : Node K V → Cache K V → Cache K V
  move_to_front n c = record c { nodes = n ∷ erase n.key c.nodes }

  -- `removeNodeLocked` and the call of the callback.
  abbrev pub remove_node : Node K V → EvictionReason → Cache K V → Cache K V
  remove_node n why c = fire (event_of why n ∷ []) (record c { nodes = erase n.key c.nodes })

  -- An expired node that is met gives way.
  abbrev pub drop_expired : Node K V → Cache K V → Cache K V
  drop_expired n c = count_eviction (remove_node n by_expiry c)

  abbrev pub fresh_node : ℕ → K → V → Option ℕ → Node K V
  fresh_node now key value expires = record {
    key = key;
    value = value;
    created_at = now;
    accessed_at = now;
    expires_at = expires;
  }

  -- A set, by the node that the key has.
  unfoldable pub set_found : ℕ → K → V → Option ℕ → Cache K V → Option (Node K V) → Cache K V
  unfolding evict_one
  set_found now key value expires c (some n) =
      fire (event_of by_replace n ∷ [])
        (move_to_front (record n { value = value; accessed_at = now; expires_at = expires }) c)
  set_found now key value expires c none =
      evict_one (record c { nodes = fresh_node now key value expires ∷ c.nodes })

  unfoldable pub set_with_ttl : ℕ → K → V → ℤ → Cache K V → Cache K V
  unfolding expire_time set_found
  set_with_ttl now key value ttl c =
      if c.closed then c else set_found now key value (expire_time now ttl c) c (find key c.nodes)

  unfoldable pub set : ℕ → K → V → Cache K V → Cache K V
  unfolding set_with_ttl
  set now key value c = set_with_ttl now key value (pos 0) c

  unfoldable pub peek_promote : ℕ → ℕ → K → Cache K V → Cache K V × Option V
  peek_promote checked now key c = elim (find key c.nodes) [
    | none ↦ (c, none)
    | some n ↦
        if is_expired checked n
        then (drop_expired n c, none)
        else (move_to_front (record n { accessed_at = now }) c, some n.value)
  ]

  abbrev pub count_get : Cache K V × Option V → Cache K V × Option V
  count_get (c, none) = (count_miss c, none)
  count_get (c, some v) = (count_hit c, some v)

  -- `Get` is `peekPromote` with the statistics.
  unfoldable pub get : ℕ → ℕ → K → Cache K V → Cache K V × Option V
  unfolding peek_promote
  get checked now key c = if c.closed then (c, none) else count_get (peek_promote checked now key c)

  unfoldable pub peek : ℕ → K → Cache K V → Option (Node K V)
  peek checked key c = if c.closed then none else elim (find key c.nodes) [
    | none ↦ none
    | some n ↦ if is_expired checked n then none else some n
  ]

  abbrev pub count_found : Cache K V → Option (Node K V) → Cache K V × Option V
  count_found c none = (count_miss c, none)
  count_found c (some n) = (count_hit c, some n.value)

  unfoldable pub get_fast : ℕ → K → Cache K V → Cache K V × Option V
  unfolding peek
  get_fast checked key c = if c.closed then (c, none) else count_found c (peek checked key c)

  unfoldable pub has : ℕ → K → Cache K V → Bool
  unfolding peek
  has checked key c = is_some (peek checked key c)

  -- A touch, by the node that the key has.
  unfoldable pub touch_found : ℕ → ℕ → Cache K V → Option (Node K V) → Cache K V × Bool
  unfolding slide_expiration
  touch_found checked now c none = (c, false)
  touch_found checked now c (some n) = if is_expired checked n then (drop_expired n c, false) else (
    move_to_front (record n { expires_at = slide_expiration c.ttl now n; accessed_at = now }) c,
    true,
  )

  unfoldable pub touch : ℕ → ℕ → K → Cache K V → Cache K V × Bool
  unfolding touch_found
  touch checked now key c =
      if c.closed then (c, false) else touch_found checked now c (find key c.nodes)

  unfoldable pub delete : K → Cache K V → Cache K V × Bool
  delete key c = if c.closed then (c, false) else elim (find key c.nodes) [
    | none ↦ (c, false)
    | some n ↦ (remove_node n by_delete c, true)
  ]
