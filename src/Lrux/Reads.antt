-- ===== src/Lrux/Reads.antt =====
-- lrux/lrux.go: what a get finds after a set, and how long an entry lives after a touch.
use urx.Base.{
  ℕ, ◌+◌, ◌-◌, ◌≤◌, ◌<◌, ◌≡◌, inl, inr, refl, ap, ◌∙◌, Bool, true, false, Option, none, some, List,
  [], ◌∷◌, ◌++◌, if◌then◌else◌, arith, length, ltb, leb, if_false, if-intro, not, Bool-cases,
  Option-cases,
}
use urx.Base.Int.{ℤ}
use urx.Lrux.Types.{Node, Cache, is_expired, fire, count_eviction}
use urx.Lrux.Cache.{
  find, erase, split_last, remove_tail, over_capacity, evict_one, expire_time, set_with_ttl,
  set_found, fresh_node, touch_found, peek_promote, peek, get, has, touch, slide_expiration,
  move_to_front, drop_expired, is_some,
}
use urx.Lrux.Nodes.{IsEquality, find_key, split_last-append, split_last-none}
use urx.Lrux.Evictions.{set_open, evict_one-over, remove_tail-closed}

module _ {ℓ κ} {K : Type ℓ} {V : Type κ} (same : K → K → Bool) (eq : IsEquality same) where
  touch_open :
      (checked now : ℕ) (key : K) (c : Cache K V) (o : Option (Node K V))
      → c.closed ≡ false
      → find same key c.nodes ≡ o
      → touch same checked now key c ≡ touch_found same checked now c o
  unfolding touch
  touch_open checked now key c o e f =
      let found = touch_found same checked now c in
      if_false c.closed (c, false) (found (find same key c.nodes)) e ∙ ap found f

  found_same :
      (key : K) (ns : List (Node K V)) (n : Node K V)
      → find same key ns ≡ some n
      → same n.key key ≡ true
  found_same key ns n f = ap (λ k. same k key) (find_key same eq key ns n f) ∙ eq.reflexive key

  pub find_front :
      (key : K) (m : Node K V) (ns : List (Node K V))
      → same m.key key ≡ true
      → find same key (m ∷ ns) ≡ some m
  find_front key m ns e = rw e

  peek_open :
      (later : ℕ) (key : K) (c : Cache K V) (m : Node K V)
      → c.closed ≡ false
      → find same key c.nodes ≡ some m
      → peek same later key c ≡ (if is_expired later m then none else some m)
  unfolding peek
  peek_open later key c m e f = rw (e, f, peek) refl

  is_some-if : (b : Bool) (m : Node K V) → is_some (if b then none else some m) ≡ not b
  is_some-if true m = refl
  is_some-if false m = refl

  has_open :
      (later : ℕ) (key : K) (c : Cache K V) (m : Node K V)
      → c.closed ≡ false
      → find same key c.nodes ≡ some m
      → has same later key c ≡ not (is_expired later m)
  unfolding has
  has_open later key c m e f =
      ap is_some (peek_open later key c m e f) ∙ is_some-if (is_expired later m) m

  live_until :
      (at end : ℕ) (m : Node K V) → m.expires_at ≡ some end → not (is_expired at m) ≡ leb at end
  live_until at end m e = rw e (ground arith)

  slides :
      (ttl now window : ℕ) (n : Node K V)
      → n.expires_at ≡ some (n.accessed_at + window)
      → 0 < window
      → slide_expiration ttl now n ≡ some (now + window)
  unfolding slide_expiration
  slides ttl now window n x w =
      let before : ltb n.accessed_at (n.accessed_at + window) ≡ true = ground (arith, w) in
      let same_window : now + ((n.accessed_at + window) - n.accessed_at) ≡ now + window =
        omega arith in
      rw (x, before, slide_expiration) (ap some same_window)

  touched :
      (checked now window : ℕ) (c : Cache K V) (n : Node K V)
      → n.expires_at ≡ some (n.accessed_at + window)
      → 0 < window
      → checked ≤ n.accessed_at + window
      → touch_found same checked now c (some n) ≡ (
        move_to_front same (record n { expires_at = some (now + window); accessed_at = now }) c,
        true,
      )
  unfolding touch_found
  touched checked now window c n x w live =
      let on_time : is_expired checked n ≡ false = rw x (ground (arith, live)) in
      let moved : Option ℕ → Cache K V × Bool =
        λ ex. (move_to_front same (record n { expires_at = ex; accessed_at = now }) c, true) in
      if_false (is_expired checked n) (drop_expired same n c, false)
        (moved (slide_expiration c.ttl now n)) on_time
      ∙ ap moved (slides c.ttl now window n x w)

  -- The window of a touched entry starts anew: an entry that was to live for some time after its
  -- last access lives just that long after the touch.
  pub touch-has :
      (checked now later window : ℕ) (key : K) (c : Cache K V) (n : Node K V)
      → c.closed ≡ false
      → find same key c.nodes ≡ some n
      → n.expires_at ≡ some (n.accessed_at + window)
      → 0 < window
      → checked ≤ n.accessed_at + window
      → let (c', ok) = touch same checked now key c in
        (ok ≡ true) × (has same later key c' ≡ leb later (now + window))
  touch-has checked now later window key c n e f x w live =
      let m = record n { expires_at = some (now + window); accessed_at = now } in
      let c' = move_to_front same m c in
      let whole =
        touch_open checked now key c (some n) e f ∙ touched checked now window c n x w live in
      let front = find_front key m (erase same n.key c.nodes) (found_same key c.nodes n f) in
      (
        ap (λ r. r.1) whole,
        ap (λ r. has same later key r.0) whole
            ∙ (has_open later key c' m e front ∙ live_until later (now + window) m refl),
      )

  get_open :
      (checked now : ℕ) (key : K) (c : Cache K V) (m : Node K V)
      → c.closed ≡ false
      → find same key c.nodes ≡ some m
      → is_expired checked m ≡ false
      → (get same checked now key c).1 ≡ some m.value
  unfolding get peek_promote
  get_open checked now key c m e f x = rw (e, f, x, get, peek_promote) refl

  -- The node in front has the key, the value and the expiry, and the cache is open.
  abbrev pub Fronts : K → V → Option ℕ → Cache K V → Type (ℓ ⊔ κ)
  Fronts key value expires c =
      (m : Node K V) × (rest : List (Node K V)) × (c.nodes ≡ m ∷ rest)
      × (same m.key key ≡ true)
      × (m.value ≡ value)
      × (m.expires_at ≡ expires)
      × (c.closed ≡ false)

  front_of :
      (m : Node K V) (ns init : List (Node K V)) (last : Node K V)
      → m ∷ ns ≡ init ++ last ∷ []
      → 1 < length (m ∷ ns)
      → (rest : List (Node K V)) × (init ≡ m ∷ rest)
  front_of m ns [] last e h = absurd (omega (arith, ap length e, h))
  front_of m ns (y ∷ ys) last e h = (ys, (let d : y ≡ m = cc in ap (λ k. k ∷ ys) d))

  -- Where an entry gives way there are two, so that the one in front stays.
  evict_one-front :
      (m : Node K V) (ns : List (Node K V)) (c : Cache K V)
      → (rest : List (Node K V)) × ((evict_one (record c { nodes = m ∷ ns })).nodes ≡ m ∷ rest)
  unfolding evict_one
  evict_one-front m ns c =
      let c1 = record c { nodes = m ∷ ns } in
      let t = remove_tail c1 in
      let after = fire t.1 (count_eviction t.0) in
      elim (Bool-cases (over_capacity c1)) [
        | inr o ↦ (ns, ap (λ x. x.nodes) (if_false (over_capacity c1) after c1 o))
        | inl o ↦ elim (Option-cases (split_last (m ∷ ns))) [
          | inl s ↦ absurd (omega (arith, ap length (split_last-none (m ∷ ns) s)))
          | inr (x, s) ↦
              let (rest, d) =
                front_of m ns x.0 x.1 (split_last-append (m ∷ ns) x.0 x.1 s) (ground (arith, o)) in
              (rest, ap (λ x. x.nodes) (evict_one-over c1 x.0 x.1 o s) ∙ d)
        ]
      ]

  evict_one-closed : (c : Cache K V) → (evict_one c).closed ≡ c.closed
  unfolding evict_one remove_tail
  evict_one-closed c =
      if-intro (λ (x : Cache K V). x.closed ≡ c.closed) (over_capacity c) _ c (remove_tail-closed c)
        refl

  pub set_found-Fronts :
      (now : ℕ) (key : K) (value : V) (expires : Option ℕ) (c : Cache K V)
      → c.closed ≡ false
      → (o : Option (Node K V)) → find same key c.nodes ≡ o
      → Fronts key value expires (set_found same now key value expires c o)
  unfolding set_found
  set_found-Fronts now key value expires c e none f =
      let n = fresh_node same now key value expires in
      let (rest, d) = evict_one-front n c.nodes c in
      (
        n,
        rest,
        d,
        eq.reflexive key,
        refl,
        refl,
        evict_one-closed (record c { nodes = n ∷ c.nodes }) ∙ e,
      )
  set_found-Fronts now key value expires c e (some n) f = (
    record n { value = value; accessed_at = now; expires_at = expires },
    erase same n.key c.nodes,
    refl,
    found_same key c.nodes n f,
    refl,
    refl,
    e,
  )

  -- A set on an open cache is seen by the next get of the key, whatever gave way, unless the entry
  -- has expired when the get looks.
  pub get-set :
      (now checked at : ℕ) (key : K) (value : V) (ttl : ℤ) (c : Cache K V)
      → c.closed ≡ false
      → is_expired checked (fresh_node same now key value (expire_time now ttl c)) ≡ false
      → (get same checked at key (set_with_ttl same now key value ttl c)).1 ≡ some value
  get-set now checked at key value ttl c e live =
      let expires = expire_time now ttl c in
      let o = find same key c.nodes in
      let c' = set_found same now key value expires c o in
      let (m, rest, d, k, v, x, still) = set_found-Fronts now key value expires c e o refl in
      let found : find same key c'.nodes ≡ some m =
        ap (find same key) d ∙ find_front key m rest k in
      let on_time : is_expired checked m ≡ false =
        ap (λ w. elim w [ none ↦ false | some z ↦ ltb z checked ]) x ∙ live in
      ap (λ y. (get same checked at key y).1) (set_open same eq now key value ttl c o e refl)
      ∙ (get_open checked at key c' m still found on_time ∙ ap some v)
