-- ===== src/Lrux/Bounds.antt =====
-- lrux/lrux.go: the loop that makes room, and what keeps a cache within its capacity.
use urx.Base.{
  ℕ, zero, suc, ◌+◌, ◌≤◌, ◌≡◌, ◌⊎◌, inl, inr, refl, ap, ◌∙◌, Bool, true, false, List, [], ◌∷◌,
  if◌then◌else◌, if-intro, arith, length, length-append, ◌&&◌, Bool-cases, Option-cases,
}
use mathlib.Core.List.{Sublistᴰ}
use urx.Lrux.Types.{Node, EvictEvent, Cache, count_eviction}
use urx.Lrux.Cache.{
  split_last, remove_tail, over_capacity, evict_one, evict_loop, nothing_left, has_event,
}
use urx.Lrux.Nodes.{split_last-append, split_last-none}

pub length-sublist {ℓ} : {A : Type ℓ} {ys xs : List A} → Sublistᴰ ys xs → length ys ≤ length xs
length-sublist Sublistᴰ.slnil = omega arith
length-sublist (Sublistᴰ.cons s) = omega (arith, length-sublist s)
length-sublist (Sublistᴰ.cons-cons e s) = omega (arith, length-sublist s)

module _ {ℓ κ} {K : Type ℓ} {V : Type κ} where
  -- A capacity of 0 is no bound.
  abbrev pub IsWithin : Cache K V → Type 0
  IsWithin c = (c.capacity ≡ 0) ⊎ (length c.nodes ≤ c.capacity)

  -- No more nodes under the same capacity.
  abbrev pub Shrinks : Cache K V → Cache K V → Type 0
  Shrinks c c' = (c'.capacity ≡ c.capacity) × (length c'.nodes ≤ length c.nodes)

  pub Shrinks-IsWithin : (c c' : Cache K V) → Shrinks c c' → IsWithin c → IsWithin c'
  Shrinks-IsWithin c c' (e, l) (inl h) = inl (e ∙ h)
  Shrinks-IsWithin c c' (e, l) (inr h) = inr (omega (arith, e, l, h))

  -- The tail goes, if there is one.
  remove_tail-length :
      (c : Cache K V)
      → ((remove_tail c).0.capacity ≡ c.capacity)
        × ((c.nodes ≡ []) ⊎ (length (remove_tail c).0.nodes + 1 ≡ length c.nodes))
  unfolding remove_tail
  remove_tail-length c = elim (Option-cases (split_last c.nodes)) [
    | inl e ↦ rw (e, remove_tail) (refl, inl (split_last-none c.nodes e))
    | inr (x, e) ↦
        let whole = ap length (split_last-append c.nodes x.0 x.1 e) in
        rw (e, remove_tail) (refl, inr (omega (arith, whole, length-append x.0 (x.1 ∷ []))))
  ]

  -- Where it is over the capacity there is a tail.
  pub over_length :
      (c : Cache K V)
      → over_capacity c ≡ true
      → ((remove_tail c).0.capacity ≡ c.capacity)
        × (length (remove_tail c).0.nodes + 1 ≡ length c.nodes)
  over_length c o =
      let (e, d) = remove_tail-length c in
      elim d [ inl n ↦ absurd (ground (arith, o, ap length n)) | inr l ↦ (e, l) ]

  fits : (c : Cache K V) → over_capacity c ≡ false → IsWithin c
  fits c o = ground (arith, o)

  pub evict_one-IsWithin :
      (c : Cache K V)
      → (c.capacity ≡ 0) ⊎ (length c.nodes ≤ c.capacity + 1)
      → IsWithin (evict_one c)
  unfolding evict_one
  evict_one-IsWithin c h = elim (Bool-cases (over_capacity c)) [
    | inr o ↦ rw (o, evict_one) (fits c o)
    | inl o ↦ let (e, l) = over_length c o in rw (o, evict_one) (ground (arith, h, e, l))
  ]

  pub nothing_left-nil :
      (event : Bool) (ns : List (Node K V)) → nothing_left event ns ≡ true → ns ≡ []
  nothing_left-nil true ns e = cc
  nothing_left-nil false [] e = refl
  nothing_left-nil false (n ∷ ns) e = cc

  -- `Resize` stops early only where nothing is left.
  break-IsWithin :
      (breaks event : Bool) (c : Cache K V) (y : Cache K V × List (EvictEvent K V))
      → IsWithin y.0
      → IsWithin (if breaks && nothing_left event c.nodes then (c, []) else y).0
  break-IsWithin false event c y w = w
  break-IsWithin true event c y w = elim (Bool-cases (nothing_left event c.nodes)) [
    | inr e ↦ rw e w
    | inl e ↦
        let n : length c.nodes ≡ 0 = ap length (nothing_left-nil event c.nodes e) in
        rw e (inr (omega (arith, n)))
  ]

  -- As much fuel as there are nodes is enough to get within the capacity.
  pub evict_loop-IsWithin :
      (breaks : Bool) (fuel : ℕ) (c : Cache K V)
      → length c.nodes ≤ fuel
      → IsWithin (evict_loop breaks fuel c).0
  unfolding evict_loop
  evict_loop-IsWithin breaks zero c h = inr (omega (arith, h))
  evict_loop-IsWithin breaks (suc fuel) c h = elim (Bool-cases (over_capacity c)) [
    | inr o ↦ rw (o, evict_loop) (fits c o)
    | inl o ↦
        let (e, l) = over_length c o in
        rw (o, evict_loop)
          (break-IsWithin breaks (has_event c.has_hook (remove_tail c).1) (remove_tail c).0 _ (
            evict_loop-IsWithin breaks fuel (count_eviction (remove_tail c).0)
              (omega (arith, h, l))))
  ]

  pub if_open {ρ} :
      {B : Type ρ} (f : B → Cache K V) (c : Cache K V) (x y : B)
      → IsWithin (f x)
      → IsWithin (f y)
      → IsWithin (f (if c.closed then x else y))
  if_open f c x y = if-intro (λ z. IsWithin (f z)) c.closed x y

  pub dropped-IsWithin :
      (c c' : Cache K V)
      → c'.capacity ≡ c.capacity
      → Sublistᴰ c'.nodes c.nodes
      → IsWithin c
      → IsWithin c'
  dropped-IsWithin c c' e s = Shrinks-IsWithin c c' (e, length-sublist s)
