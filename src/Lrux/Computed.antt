-- ===== src/Lrux/Computed.antt =====
-- lrux/compute.go: `GetOrCompute`, and the call that follows it.
use urx.Base.{ℕ, ◌≡◌, refl, sym, ap, ◌∙◌, subst, Bool, false, Option, none, some, ltb, if_false}
use urx.Base.Errors.{Error}
use urx.Base.Int.{pos}
use urx.Lrux.Config.{ComputeConfig}
use urx.Panix.Recover.{Outcome, returns, safe}
use urx.Lrux.Types.{Node, Cache, is_expired, count_miss}
use urx.Lrux.Cache.{find, expire_time, fresh_node, peek_promote, set_found, move_to_front}
use urx.Lrux.Nodes.{IsEquality}
use urx.Lrux.Reads.{find_front, set_found-Fronts}
use urx.Lrux.Compute.{
  Clock, Looks, compute_with, cached_or, insert_locked, store, compute_direct, compute_single,
  get_or_compute,
}

-- The context is live at every look.
abbrev pub IsLive : Looks → Type 0
IsLive l = (l.first ≡ none) × (l.before ≡ none) × (l.after ≡ none)

module _ {ℓ κ} {K : Type ℓ} {V : Type κ} (same : K → K → Bool) (zero_value : V) where
  peek_promote-none :
      (checked now : ℕ) (key : K) (c : Cache K V)
      → find same key c.nodes ≡ none
      → peek_promote same checked now key c ≡ (c, none)
  unfolding peek_promote
  peek_promote-none checked now key c f = rw (f, peek_promote) refl

  module _ (cfg : ComputeConfig) (t : Clock) (looks : Looks) (key : K)
      (fn : Cache K V → Cache K V × Outcome V) (live : IsLive looks) where
    compute_direct-stores :
        (c c2 : Cache K V) (value : V)
        → find same key c.nodes ≡ none
        → fn c ≡ (c2, returns value none)
        → c2.closed ≡ false
        → find same key c2.nodes ≡ none
        → compute_direct same zero_value t looks key (pos cfg.ttl) fn c ≡ (
          set_found same t.inserted key value (expire_time t.inserted (pos cfg.ttl) c2) c2 none,
          value,
          none,
        )
    unfolding compute_direct store insert_locked set_found safe
    compute_direct-stores c c2 value f r o2 f2 =
        ap (compute_with same zero_value t looks key (pos cfg.ttl) fn)
          (peek_promote-none t.rechecked t.moved key c f)
        ∙ rw (live.1, r, live.2, f2, o2, store, insert_locked) refl

    get_or_compute-stores :
        (shared : Option (V × Option Error)) (c c2 : Cache K V) (value : V)
        → cfg.singleflight ≡ false
        → c.closed ≡ false
        → find same key c.nodes ≡ none
        → fn (count_miss c) ≡ (c2, returns value none)
        → c2.closed ≡ false
        → find same key c2.nodes ≡ none
        → get_or_compute same zero_value cfg t looks key fn shared c ≡ (
          set_found same t.inserted key value (expire_time t.inserted (pos cfg.ttl) c2) c2 none,
          value,
          none,
        )
    unfolding get_or_compute
    get_or_compute-stores shared c c2 value alone o f r o2 f2 =
        rw (o, live.0)
          (ap (cached_or same zero_value cfg t looks key fn shared)
              (peek_promote-none t.checked t.promoted key c f)
            ∙ if_false cfg.singleflight
                (compute_single same zero_value t looks key (pos cfg.ttl) fn shared c)
                (compute_direct same zero_value t looks key (pos cfg.ttl) fn (count_miss c)) alone
            ∙ compute_direct-stores (count_miss c) c2 value f r o2 f2)

    get_or_compute-hit :
        (shared : Option (V × Option Error)) (c : Cache K V) (m : Node K V)
        → c.closed ≡ false
        → find same key c.nodes ≡ some m
        → is_expired t.checked m ≡ false
        → let (c', v, err) = get_or_compute same zero_value cfg t looks key fn shared c in
          (v ≡ m.value) × (err ≡ none)
    unfolding get_or_compute peek_promote
    get_or_compute-hit shared c m o f x =
        let found : peek_promote same t.checked t.promoted key c
            ≡ (move_to_front same (record m { accessed_at = t.promoted }) c, some m.value) =
          rw (f, x, peek_promote) refl in
        rw (o, live.0, found) (refl, refl)

  -- Without `WithSingleflight` in the first call a value is computed once. On an open cache without
  -- the key, where the compute function ends without an error, the cache is then open and still
  -- without the key, and the context is live: `GetOrCompute` returns the value, and the next call for
  -- the key, with whatever compute function and options and a live context, returns it too, unless
  -- the entry has expired when it looks.
  pub get_or_compute-get_or_compute :
      (eq : IsEquality same) (cfg cfg' : ComputeConfig) (t t' : Clock) (looks looks' : Looks)
      (key : K) (fn fn' : Cache K V → Cache K V × Outcome V)
      (shared shared' : Option (V × Option Error)) (c c2 : Cache K V) (value : V)
      → cfg.singleflight ≡ false
      → IsLive looks
      → IsLive looks'
      → c.closed ≡ false
      → find same key c.nodes ≡ none
      → fn (count_miss c) ≡ (c2, returns value none)
      → c2.closed ≡ false
      → find same key c2.nodes ≡ none
      → is_expired t'.checked
          (fresh_node same t.inserted key value (expire_time t.inserted (pos cfg.ttl) c2))
        ≡ false
      → let (c', v, err) = get_or_compute same zero_value cfg t looks key fn shared c in
        let (c'', v', err') = get_or_compute same zero_value cfg' t' looks' key fn' shared' c' in
        (v ≡ value) × (err ≡ none) × (v' ≡ value) × (err' ≡ none)
  get_or_compute-get_or_compute eq cfg cfg' t t' looks looks' key fn fn' shared shared' c c2 value
        alone live live' o f r o2 f2 fresh =
      let expires = expire_time t.inserted (pos cfg.ttl) c2 in
      let stored = set_found same t.inserted key value expires c2 none in
      let first =
        get_or_compute-stores cfg t looks key fn live shared c c2 value alone o f r o2 f2 in
      let (m, rest, d, k, v, x, still) =
        set_found-Fronts same eq t.inserted key value expires c2 o2 none f2 in
      let found : find same key stored.nodes ≡ some m =
        ap (find same key) d ∙ find_front same eq key m rest k in
      let on_time : is_expired t'.checked m ≡ false =
        ap (λ w. elim w [ none ↦ false | some z ↦ ltb z t'.checked ]) x ∙ fresh in
      let (again, no_error) =
        get_or_compute-hit cfg' t' looks' key fn' live' shared' stored m still found on_time in
      subst
        (λ (y : Cache K V × V × Option Error).
          let (c', w, err) = y in
          let (c'', w', err') = get_or_compute same zero_value cfg' t' looks' key fn' shared' c' in
          (w ≡ value) × (err ≡ none) × (w' ≡ value) × (err' ≡ none))
        (sym first) (refl, refl, again ∙ v, no_error)
