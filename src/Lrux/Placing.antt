-- ===== src/Lrux/Placing.antt =====
-- lrux/sharded.go: what a method of one shard, or of all, makes of the shard with an index.
use urx.Base.{
  ℕ, zero, suc, ◌+◌, ◌≡◌, ◌≢◌, refl, ap, ◌∙◌, Option, none, some, List, [], ◌∷◌, get_elem?, arith,
}
use urx.Base.Slices.{get_elem?-set_same, get_elem?-set_other, get_elem?_bound}
use urx.Lrux.Types.{Cache}
use urx.Lrux.Sharded.{at_shard, each_from}

module _ {ℓ κ} {K : Type ℓ} {V : Type κ} where
  get_elem?-each_from :
      (f : ℕ → Cache K V → Cache K V) (cs : List (Cache K V)) (j i : ℕ) (c : Cache K V)
      → get_elem? cs i ≡ some c
      → get_elem? (each_from j f cs) i ≡ some (f (j + i) c)
  get_elem?-each_from f [] j i c h = cc
  get_elem?-each_from f (x ∷ xs) j zero c h =
      ap (λ (o : Option (Cache K V)). elim o [ none ↦ none | some y ↦ some (f j y) ]) h
      ∙ ap (λ k. some (f k c)) (let e : j ≡ j + 0 = omega arith in e)
  get_elem?-each_from f (x ∷ xs) j (suc i) c h =
      get_elem?-each_from f xs (j + 1) i c h
      ∙ ap (λ k. some (f k c)) (let e : j + 1 + i ≡ j + suc i = omega arith in e)

  pub each-at :
      (f : ℕ → Cache K V → Cache K V) (cs : List (Cache K V)) (i : ℕ) (c : Cache K V)
      → get_elem? cs i ≡ some c
      → get_elem? (each_from 0 f cs) i ≡ some (f i c)
  each-at f cs i c h =
      get_elem?-each_from f cs 0 i c h
      ∙ ap (λ k. some (f k c)) (let e : 0 + i ≡ i = omega arith in e)

  pub at_shard-other :
      (f : Cache K V → Cache K V) (o : Option (Cache K V)) (j i : ℕ) (cs : List (Cache K V))
      → j ≢ i
      → get_elem? (at_shard f o j cs) i ≡ get_elem? cs i
  at_shard-other f none j i cs d = refl
  at_shard-other f (some c) j i cs d = get_elem?-set_other cs j i (f c) d

  pub at_shard-own :
      (f : Cache K V → Cache K V) (i : ℕ) (cs : List (Cache K V)) (c : Cache K V)
      → get_elem? cs i ≡ some c
      → get_elem? (at_shard f (get_elem? cs i) i cs) i ≡ some (f c)
  at_shard-own f i cs c h =
      ap (λ o. get_elem? (at_shard f o i cs) i) h
      ∙ get_elem?-set_same cs i (f c) (get_elem?_bound cs i c h)
