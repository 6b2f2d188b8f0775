-- ===== src/Lrux/Sweeps.antt =====
-- lrux/lrux.go: the operations on many keys, the scans, and the end. A scan reads the clock at every
-- node: `clock i` is the reading at the node with index `i`. Go's order over the map that `SetMulti`
-- gets is the order of its list here.
use urx.Base.{
  ℕ, suc, ◌+◌, ◌-◌, Bool, true, false, Option, none, some, List, [], ◌∷◌, ◌++◌, map, if◌then◌else◌,
  u64, length,
}
use urx.Base.Int.{ℤ, pos, negsuc}
use urx.Lrux.Types.{
  EvictionReason, by_expiry, by_delete, by_clear, by_replace, Node, EvictEvent, Cache, event_of,
  is_expired, fire,
}
use urx.Lrux.Cache.{find, erase, move_to_front, expire_time, evict_loop, get}

-- `Stats`, with the hit rate left out.
pub record Stats : Type 0 where
  pub size : ℕ
  pub capacity : ℕ
  pub hits : ℕ
  pub misses : ℕ
  pub evictions : ℕ

module _ {ℓ κ} {K : Type ℓ} {V : Type κ} where
  -- The live nodes, and the expired ones, in the order of the scan.
  abbrev pub scan : (ℕ → ℕ) → ℕ → List (Node K V) → List (Node K V) × List (Node K V)
  scan clock i [] = ([], [])
  scan clock i (n ∷ ns) =
      let (live, gone) = scan clock (suc i) ns in
      if is_expired (clock i) n then (live, n ∷ gone) else (n ∷ live, gone)

  -- `ExpireOld` and the scans of `Keys`, `Values` and `Snapshot`: the cache after it.
  unfoldable pub sweep : (ℕ → ℕ) → Cache K V → Cache K V
  sweep clock c =
      let (live, gone) = scan clock 0 c.nodes in
      if c.closed
      then c
      else fire (map (event_of by_expiry) gone)
          (record c { nodes = live; evictions = u64 (c.evictions + length gone) })

  unfoldable pub expire_old : (ℕ → ℕ) → Cache K V → Cache K V × ℕ
  unfolding sweep
  expire_old clock c = (sweep clock c, if c.closed then 0 else length (scan clock 0 c.nodes).1)

  unfoldable pub snapshot : (ℕ → ℕ) → Cache K V → Cache K V × List (Node K V)
  unfolding sweep
  snapshot clock c = (sweep clock c, if c.closed then [] else (scan clock 0 c.nodes).0)

  unfoldable pub keys : (ℕ → ℕ) → Cache K V → Cache K V × List K
  unfolding snapshot
  keys clock c = let (c', live) = snapshot clock c in (c', map (λ n. n.key) live)

  unfoldable pub values : (ℕ → ℕ) → Cache K V → Cache K V × List V
  unfolding snapshot
  values clock c = let (c', live) = snapshot clock c in (c', map (λ n. n.value) live)

  -- The scan of `Range`: what it leaves, what expired, and the live nodes that `fn` was called with.
  abbrev pub scan_while :
      (K → V → Bool)
      → (ℕ → ℕ)
      → ℕ
      → List (Node K V)
      → List (Node K V) × List (Node K V) × List (Node K V)
  scan_while fn clock i [] = ([], [], [])
  scan_while fn clock i (n ∷ ns) =
      let (left, gone, seen) = scan_while fn clock (suc i) ns in
      if is_expired (clock i) n
      then (left, n ∷ gone, seen)
      else (if fn n.key n.value then (n ∷ left, gone, n ∷ seen) else (n ∷ ns, [], n ∷ []))

  unfoldable pub range : (K → V → Bool) → (ℕ → ℕ) → Cache K V → Cache K V × List (Node K V)
  range fn clock c =
      let (left, gone, seen) = scan_while fn clock 0 c.nodes in
      if c.closed then (c, []) else (
        fire (map (event_of by_expiry) gone)
            (record c { nodes = left; evictions = u64 (c.evictions + length gone) }),
        seen,
      )

  -- `drain`: all nodes give way.
  abbrev pub drain : EvictionReason → Cache K V → Cache K V
  drain why c = fire (map (event_of why) c.nodes) (record c { nodes = [] })

  unfoldable pub clear : Cache K V → Cache K V
  clear c = if c.closed then c else drain by_clear c

  unfoldable pub close : Cache K V → Cache K V
  close c = if c.closed then c else drain by_clear (record c { closed = true })

  unfoldable pub len : Cache K V → ℕ
  len c = if c.closed then 0 else length c.nodes

  unfoldable pub len_valid : (ℕ → ℕ) → Cache K V → ℕ
  len_valid clock c = if c.closed then 0 else length (scan clock 0 c.nodes).0

  unfoldable pub stats : Cache K V → Stats
  stats c = record {
    size = length c.nodes;
    capacity = c.capacity;
    hits = c.hits;
    misses = c.misses;
    evictions = c.evictions;
  }

  unfoldable pub reset_stats : Cache K V → Cache K V
  reset_stats c = record c { hits = 0; misses = 0; evictions = 0 }

module _ {ℓ κ} {K : Type ℓ} {V : Type κ} (same : K → K → Bool) where
  -- `TTL`: 0 for a key that is missing or expired, -1 for one that does not expire.
  unfoldable pub ttl_of : ℕ → K → Cache K V → ℤ
  ttl_of now key c = if c.closed then pos 0 else elim (find same key c.nodes) [
    | none ↦ pos 0
    | some n ↦ elim n.expires_at [ none ↦ negsuc 0 | some e ↦ pos (e - now) ]
  ]

  -- One entry of `SetMulti`'s loop, with its event.
  unfoldable pub set_entry : ℕ → Option ℕ → K → V → Cache K V → Cache K V × List (EvictEvent K V)
  set_entry now expires key value c = elim (find same key c.nodes) [
    | some n ↦ (
      move_to_front same (record n { value = value; accessed_at = now; expires_at = expires }) c,
      event_of by_replace n ∷ [],
    )
    | none ↦ (
      record c {
        nodes =
            record {
              key = key;
              value = value;
              created_at = now;
              accessed_at = now;
              expires_at = expires;
            }
            ∷ c.nodes;
      },
      [],
    )
  ]

  unfoldable pub set_entries :
      ℕ → Option ℕ → List (K × V) → Cache K V → Cache K V × List (EvictEvent K V)
  unfolding set_entry
  set_entries now expires [] c = (c, [])
  set_entries now expires ((key, value) ∷ items) c =
      let (c', events) = set_entry now expires key value c in
      let (c'', more) = set_entries now expires items c' in (c'', events ++ more)

  unfoldable pub set_multi : ℕ → List (K × V) → Cache K V → Cache K V
  unfolding evict_loop expire_time set_entries
  set_multi now items c =
      let (c', events) = set_entries now (expire_time now (pos 0) c) items c in
      let (c'', more) = evict_loop false (length c'.nodes) c' in
      if c.closed then c else fire (events ++ more) c''

  -- The values found, each with its key, in the order of the keys; `clock i` has both readings for
  -- the key with index `i`.
  unfoldable pub get_multi : (ℕ → ℕ × ℕ) → ℕ → List K → Cache K V → Cache K V × List (K × V)
  unfolding get
  get_multi clock i [] c = (c, [])
  get_multi clock i (key ∷ ks) c =
      let (c', found) = get same (clock i).0 (clock i).1 key c in
      let (c'', more) = get_multi clock (suc i) ks c' in
      (c'', elim found [ none ↦ more | some v ↦ (key, v) ∷ more ])

  abbrev pub delete_entries : List K → Cache K V → Cache K V × List (EvictEvent K V)
  delete_entries [] c = (c, [])
  delete_entries (key ∷ ks) c = elim (find same key c.nodes) [
    | none ↦ delete_entries ks c
    | some n ↦
        let (c', more) = delete_entries ks (record c { nodes = erase same n.key c.nodes }) in
        (c', event_of by_delete n ∷ more)
  ]

  unfoldable pub delete_multi : List K → Cache K V → Cache K V × ℕ
  delete_multi ks c =
      let (c', events) = delete_entries ks c in
      if c.closed then (c, 0) else (fire events c', length events)
