-- ===== src/Lrux/Skips.antt =====
-- lrux/lrux.go: the two halves of a removal from the intrusive list.
use urx.Base.{
  ℕ, ◌≡◌, ◌≢◌, inl, inr, refl, sym, subst, ◌∙◌, Option, none, some, List, [], ◌∷◌, All, All-map,
}
use urx.Lrux.Links.{Links, put, skip_forward, skip_backward}
use urx.Lrux.Chains.{
  In, IsFresh, NoDup, Linked, put-Fresh, Linked-frame, Linked-lead, Linked-follow, IsDisjoint,
}

pub all_same : (f : ℕ → Option ℕ) (xs : List ℕ) → All (λ x. f x ≡ f x) xs
all_same f [] = tt
all_same f (x ∷ xs) = (refl, all_same f xs)

pub Fresh-sym : (ys : List ℕ) (z : ℕ) (zs : List ℕ) → IsDisjoint ys (z ∷ zs) → IsFresh z ys
Fresh-sym ys z zs d = All-map (λ y. IsFresh y (z ∷ zs)) (λ y. y ≢ z) ys (λ y f e. f.0 (sym e)) d

disjoint-IsFresh : (a : ℕ) (ys zs : List ℕ) → In a ys → IsDisjoint ys zs → IsFresh a zs
disjoint-IsFresh a [] zs i d = absurd i
disjoint-IsFresh a (y ∷ ys) zs (inl e) d = subst (λ w. IsFresh w zs) e d.0
disjoint-IsFresh a (y ∷ ys) zs (inr i) d = disjoint-IsFresh a ys zs i d.1

-- What the first half of a removal leaves: `ys` lead past `n`, and what follows is as before.
abbrev Skipped : ℕ → List ℕ → List ℕ → Option ℕ → Links → Links → Type 0
Skipped n ys zs m c c' =
    Linked c'.next c'.prev none ys (c.next n) c'.head m
    × All (λ x. c'.next x ≡ c.next x) (n ∷ zs)
    × (c'.prev ≡ c.prev)
    × (c'.tail ≡ c.tail)
    × (c'.size ≡ c.size)

skip_forward-none :
    (n : ℕ) (c : Links) → c.prev n ≡ none → skip_forward n c ≡ record c { head = c.next n }
unfolding skip_forward
skip_forward-none n c e = rw (e, skip_forward)

skip_forward-some :
    (n p : ℕ) (c : Links)
    → c.prev n ≡ some p
    → skip_forward n c ≡ record c { next = put c.next p (c.next n) }
unfolding skip_forward
skip_forward-some n p c e = rw (e, skip_forward)

skip_backward-none :
    (n : ℕ) (c : Links) → c.next n ≡ none → skip_backward n c ≡ record c { tail = c.prev n }
unfolding skip_backward
skip_backward-none n c e = rw (e, skip_backward)

skip_backward-some :
    (n q : ℕ) (c : Links)
    → c.next n ≡ some q
    → skip_backward n c ≡ record c { prev = put c.prev q (c.prev n) }
unfolding skip_backward
skip_backward-some n q c e = rw (e, skip_backward)

pub skip_forward_lem :
    (n : ℕ) (ys zs : List ℕ) (k m : Option ℕ) (c : Links)
    → Linked c.next c.prev none ys k c.head m
    → c.prev n ≡ m
    → NoDup ys
    → IsDisjoint ys (n ∷ zs)
    → Skipped n ys zs m c (skip_forward n c)
unfolding skip_forward
skip_forward_lem n [] zs k m c l e u d =
    subst (Skipped n [] zs m c) (sym (skip_forward-none n c (e ∙ l.1)))
      ((refl, l.1), all_same c.next (n ∷ zs), refl, refl, refl)
skip_forward_lem n (y ∷ ys) zs k m c l e u d =
    let (a, r, i, w) = Linked-lead c.next c.prev none y ys k c.head m (c.next n) u l in
    subst (Skipped n (y ∷ ys) zs m c) (sym (skip_forward-some n a c (e ∙ r))) (
      w,
      put-Fresh c.next a (c.next n) (n ∷ zs) (disjoint-IsFresh a (y ∷ ys) (n ∷ zs) i d),
      refl,
      refl,
      refl,
    )

-- What the second half leaves: `zs` follow the node before `n`.
abbrev Joined : ℕ → List ℕ → List ℕ → Option ℕ → Links → Links → Type 0
Joined n ys zs m c c' =
    Linked c'.next c'.prev none ys (c.next n) c'.head m
    × Linked c'.next c'.prev m zs none (c.next n) c'.tail
    × (c'.size ≡ c.size)

pub skip_backward_lem :
    (n : ℕ) (ys zs : List ℕ) (m : Option ℕ) (c : Links)
    → Linked c.next c.prev none ys (c.next n) c.head m
    → c.prev n ≡ m
    → Linked c.next c.prev (some n) zs none (c.next n) c.tail
    → NoDup zs
    → IsDisjoint ys zs
    → Joined n ys zs m c (skip_backward n c)
unfolding skip_backward
skip_backward_lem n ys [] m c a e b u d =
    subst (Joined n ys [] m c) (sym (skip_backward-none n c b.0)) (a, (b.0, e), refl)
skip_backward_lem n ys (z ∷ zs) m c a e b u d =
    let q = c.prev n in
    subst (Joined n ys (z ∷ zs) m c) (sym (skip_backward-some n z c b.0)) (
      Linked-frame c.next c.prev c.next (put c.prev z q) none ys (c.next n) c.head m
          (all_same c.next ys) (put-Fresh c.prev z q ys (Fresh-sym ys z zs d)) a,
      subst (λ w. Linked c.next (put c.prev z q) w (z ∷ zs) none (c.next n) c.tail) e
          (Linked-follow c.next c.prev (some n) z zs none (c.next n) c.tail q u b),
      refl,
    )
