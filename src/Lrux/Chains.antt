-- ===== src/Lrux/Chains.antt =====
-- lrux/lrux.go: what it means that the intrusive list stands for a list of addresses, and the effect
-- of single writes on it.
use urx.Base.{
  ℕ, ◌≡◌, ◌≢◌, ◌⊎◌, inl, inr, refl, sym, subst, ◌∙◌, Option, none, some, List, [], ◌∷◌, ◌++◌, All,
  All-map, All-append, All-split, length, arith,
}
use urx.Lrux.Links.{Links, put}

abbrev pub In : ℕ → List ℕ → Type 0
In a [] = ⊥
In a (x ∷ xs) = (x ≡ a) ⊎ In a xs

abbrev pub IsFresh : ℕ → List ℕ → Type 0
IsFresh a xs = All (λ x. x ≢ a) xs

abbrev pub NoDup : List ℕ → Type 0
NoDup [] = Unit
NoDup (x ∷ xs) = IsFresh x xs × NoDup xs

-- The nodes `xs` follow each other between the node `p` and the node `s`: `h` is what a pointer to
-- the first of them says, `t` what a pointer to the last says.
abbrev pub Linked :
    (ℕ → Option ℕ) → (ℕ → Option ℕ) → Option ℕ → List ℕ → Option ℕ → Option ℕ → Option ℕ → Type 0
Linked next prev p [] s h t = (h ≡ s) × (t ≡ p)
Linked next prev p (x ∷ xs) s h t =
    (h ≡ some x) × (prev x ≡ p) × Linked next prev (some x) xs s (next x) t

abbrev pub Represents : Links → List ℕ → Type 0
Represents c xs = Linked c.next c.prev none xs none c.head c.tail × NoDup xs × (c.size ≡ length xs)

pub put-same : (f : ℕ → Option ℕ) (a : ℕ) (v : Option ℕ) → put f a v a ≡ v
unfolding put
put-same f a v = ground arith

pub put-other : (f : ℕ → Option ℕ) (a b : ℕ) (v : Option ℕ) → b ≢ a → put f a v b ≡ f b
unfolding put
put-other f a b v h = ground arith

-- All but `a` keep their fields under a write to `a`.
pub put-Fresh :
    (f : ℕ → Option ℕ) (a : ℕ) (v : Option ℕ) (xs : List ℕ)
    → IsFresh a xs
    → All (λ x. put f a v x ≡ f x) xs
put-Fresh f a v xs = All-map (λ x. x ≢ a) (λ x. put f a v x ≡ f x) xs (λ x h. put-other f a x v h)

pub In-Fresh : (a b : ℕ) (xs : List ℕ) → In a xs → IsFresh b xs → a ≢ b
In-Fresh a b [] i f = absurd i
In-Fresh a b (x ∷ xs) (inl e) f = subst (λ y. y ≢ b) e f.0
In-Fresh a b (x ∷ xs) (inr i) f = In-Fresh a b xs i f.1

-- Fields outside the nodes do not matter.
pub Linked-frame :
    (next prev next' prev' : ℕ → Option ℕ) (p : Option ℕ) (xs : List ℕ) (s h t : Option ℕ)
    → All (λ x. next' x ≡ next x) xs
    → All (λ x. prev' x ≡ prev x) xs
    → Linked next prev p xs s h t
    → Linked next' prev' p xs s h t
Linked-frame next prev next' prev' p [] s h t a b l = l
Linked-frame next prev next' prev' p (x ∷ xs) s h t a b (e, d, l) = (
  e,
  b.0 ∙ d,
  subst (λ k. Linked next' prev' (some x) xs s k t) (sym a.0)
      (Linked-frame next prev next' prev' (some x) xs s (next x) t a.1 b.1 l),
)

pub Linked-split :
    (next prev : ℕ → Option ℕ) (p : Option ℕ) (xs ys : List ℕ) (s h t : Option ℕ)
    → Linked next prev p (xs ++ ys) s h t
    → (m : Option ℕ) × (k : Option ℕ) × Linked next prev p xs k h m × Linked next prev m ys s k t
Linked-split next prev p [] ys s h t l = (p, h, (refl, refl), l)
Linked-split next prev p (x ∷ xs) ys s h t (e, d, l) =
    let (m, k, a, b) = Linked-split next prev (some x) xs ys s (next x) t l in (m, k, (e, d, a), b)

pub Linked-join :
    (next prev : ℕ → Option ℕ) (p : Option ℕ) (xs ys : List ℕ) (m k s h t : Option ℕ)
    → Linked next prev p xs k h m
    → Linked next prev m ys s k t
    → Linked next prev p (xs ++ ys) s h t
Linked-join next prev p [] ys m k s h t (e, d) l =
    subst (λ q. Linked next prev q ys s h t) d (subst (λ q. Linked next prev m ys s q t) (sym e) l)
Linked-join next prev p (x ∷ xs) ys m k s h t (e, d, a) l =
    (e, d, Linked-join next prev (some x) xs ys m k s (next x) t a l)

-- The last node's `next` is written: the nodes now lead to `q`.
pub Linked-lead :
    (next prev : ℕ → Option ℕ) (p : Option ℕ) (x : ℕ) (xs : List ℕ) (s h t q : Option ℕ)
    → NoDup (x ∷ xs)
    → Linked next prev p (x ∷ xs) s h t
    → (a : ℕ) × (t ≡ some a) × In a (x ∷ xs) × Linked (put next a q) prev p (x ∷ xs) q h t
Linked-lead next prev p x [] s h t q u (e, d, l) =
    (x, l.1, inl refl, (e, d, (put-same next x q, l.1)))
Linked-lead next prev p x (y ∷ ys) s h t q u (e, d, l) =
    let (a, r, i, k) = Linked-lead next prev (some x) y ys s (next x) t q u.1 l in
    let x≢a : x ≢ a = λ z. In-Fresh a x (y ∷ ys) i u.0 (sym z) in
    (
      a,
      r,
      inr i,
      (
        e,
        d,
        subst (λ z. Linked (put next a q) prev (some x) (y ∷ ys) q z t)
            (sym (put-other next a x q x≢a)) k,
      ),
    )

-- The first node's `prev` is written: the nodes now follow `q`.
pub Linked-follow :
    (next prev : ℕ → Option ℕ) (p : Option ℕ) (x : ℕ) (xs : List ℕ) (s h t q : Option ℕ)
    → NoDup (x ∷ xs)
    → Linked next prev p (x ∷ xs) s h t
    → Linked next (put prev x q) q (x ∷ xs) s h t
Linked-follow next prev p x xs s h t q u (e, d, l) = (
  e,
  put-same prev x q,
  Linked-frame next prev next (put prev x q) (some x) xs s (next x) t
      (All-map (λ y. y ≢ x) (λ y. next y ≡ next y) xs (λ y z. refl) u.0) (put-Fresh prev x q xs u.0)
      l,
)

abbrev pub IsDisjoint : List ℕ → List ℕ → Type 0
IsDisjoint xs ys = All (λ x. IsFresh x ys) xs

pub NoDup-split : (xs ys : List ℕ) → NoDup (xs ++ ys) → NoDup xs × NoDup ys × IsDisjoint xs ys
NoDup-split [] ys u = (tt, u, tt)
NoDup-split (x ∷ xs) ys u =
    let (a, b, c) = NoDup-split xs ys u.1 in
    let (f, g) = All-split (λ z. z ≢ x) xs ys u.0 in ((f, a), b, (g, c))

pub NoDup-join : (xs ys : List ℕ) → NoDup xs → NoDup ys → IsDisjoint xs ys → NoDup (xs ++ ys)
NoDup-join [] ys a b c = b
NoDup-join (x ∷ xs) ys a b c = (All-append (λ z. z ≢ x) xs ys a.0 c.0, NoDup-join xs ys a.1 b c.1)
