-- ===== src/Lrux/Relinks.antt =====
-- lrux/lrux.go: what a push, a removal and a move to the front do to the list of addresses that the
-- intrusive list stands for.
use urx.Base.{
  ℕ, ◌+◌, ◌≡◌, ◌≢◌, refl, sym, ap, subst, ◌∙◌, true, false, Option, none, some, List, [], ◌∷◌, ◌++◌,
  if◌then◌else◌, ◌==◌, All-map, All-append, length-append, arith,
}
use urx.Lrux.Links.{
  Links, put, link_back, keep_tail, is_at, list_push_front, skip_forward, skip_backward,
  list_remove, list_move_to_front,
}
use urx.Lrux.Chains.{
  IsFresh, Linked, Represents, put-same, put-other, put-Fresh, Linked-frame, Linked-split,
  Linked-join, Linked-lead, Linked-follow, IsDisjoint, NoDup-split, NoDup-join,
}
use urx.Lrux.Skips.{all_same, Fresh-sym, skip_forward_lem, skip_backward_lem}

pub list_remove_lem :
    (n : ℕ) (ys zs : List ℕ) (c : Links)
    → Represents c (ys ++ n ∷ zs)
    → Represents (list_remove n c) (ys ++ zs)
unfolding list_remove
list_remove_lem n ys zs c (l, u, size) =
    let (m, k, a, b) = Linked-split c.next c.prev none ys (n ∷ zs) none c.head c.tail l in
    let (uy, uz, d) = NoDup-split ys (n ∷ zs) u in
    let dz : IsDisjoint ys zs =
      All-map (λ y. IsFresh y (n ∷ zs)) (λ y. IsFresh y zs) ys (λ y f. f.1) d in
    let c1 = skip_forward n c in
    let (f, same_next, same_prev, same_tail, same_size) =
      skip_forward_lem n ys zs k m c a b.1 uy d in
    let behind : Linked c1.next c1.prev (some n) zs none (c1.next n) c1.tail =
      subst (λ t. Linked c1.next c1.prev (some n) zs none (c1.next n) t) (sym same_tail)
        (subst (λ h. Linked c1.next c1.prev (some n) zs none h c.tail) (sym same_next.0)
          (subst (λ p. Linked c1.next p (some n) zs none (c.next n) c.tail) (sym same_prev)
            (Linked-frame c.next c.prev c1.next c.prev (some n) zs none (c.next n) c.tail
              same_next.1 (all_same c.prev zs) b.2))) in
    let before : Linked c1.next c1.prev none ys (c1.next n) c1.head m =
      subst (λ h. Linked c1.next c1.prev none ys h c1.head m) (sym same_next.0) f in
    let c2 = skip_backward n c1 in
    let (g, h, size2) =
      skip_backward_lem n ys zs m c1 before (ap (λ p. p n) same_prev ∙ b.1) behind uz.1 dz in
    let whole = Linked-join c2.next c2.prev none ys zs m (c1.next n) none c2.head c2.tail g h in
    let fresh : IsFresh n (ys ++ zs) = All-append (λ x. x ≢ n) ys zs (Fresh-sym ys n zs d) uz.0 in
    (
      Linked-frame c2.next c2.prev (put c2.next n none) (put c2.prev n none) none (ys ++ zs) none
          c2.head c2.tail (put-Fresh c2.next n none _ fresh) (put-Fresh c2.prev n none _ fresh)
          whole,
      NoDup-join ys zs uy uz.1 dz,
      omega (arith, size, size2, same_size, length-append ys (n ∷ zs), length-append ys zs),
    )

-- The list after a push before a head `h` and a tail `t`.
abbrev pushed : ℕ → Links → Option ℕ → Option ℕ → Links
pushed n c h t = record {
  head = some n;
  tail = keep_tail t n;
  next = put c.next n h;
  prev = link_back h n (put c.prev n none);
  size = c.size + 1;
}

list_push_front-pushed :
    (n : ℕ) (c : Links) (h t : Option ℕ)
    → c.head ≡ h
    → c.tail ≡ t
    → list_push_front n c ≡ pushed n c h t
unfolding list_push_front
list_push_front-pushed n c h t e d = ap (λ x. pushed n c x c.tail) e ∙ ap (pushed n c h) d

pub list_push_front_lem :
    (n : ℕ) (xs : List ℕ) (c : Links)
    → IsFresh n xs
    → Represents c xs
    → Represents (list_push_front n c) (n ∷ xs)
list_push_front_lem n [] c f (l, u, size) =
    subst (λ x. Represents x (n ∷ [])) (sym (list_push_front-pushed n c none none l.0 l.1))
      (
        (refl, put-same c.prev n none, (put-same c.next n none, refl)),
        (tt, tt),
        omega (arith, size),
      )
list_push_front_lem n (x ∷ xs) c f (l, u, size) =
    let (a, r, _, _) = Linked-lead c.next c.prev none x xs none c.head c.tail none u l in
    let next = put c.next n (some x) in
    let first_prev = put c.prev n none in
    let framed : Linked next first_prev none (x ∷ xs) none (some x) (some a) =
      subst (λ h. Linked next first_prev none (x ∷ xs) none h (some a)) l.0
        (subst (λ t. Linked next first_prev none (x ∷ xs) none c.head t) r
          (Linked-frame c.next c.prev next first_prev none (x ∷ xs) none c.head c.tail
            (put-Fresh c.next n (some x) (x ∷ xs) f) (put-Fresh c.prev n none (x ∷ xs) f) l)) in
    let follows =
      Linked-follow next first_prev none x xs none (some x) (some a) (some n) u framed in
    let prev = put first_prev x (some n) in
    subst (λ w. Represents w (n ∷ x ∷ xs))
      (sym (list_push_front-pushed n c (some x) (some a) l.0 r))
      (
        (
          refl,
          put-other first_prev x n (some n) (λ e. f.0 (sym e)) ∙ put-same c.prev n none,
          subst (λ h. Linked next prev (some n) (x ∷ xs) none h (some a))
              (sym (put-same c.next n (some x))) follows,
        ),
        (f, u),
        omega (arith, size),
      )

move_none : (n : ℕ) (c : Links) → is_at n c.head ≡ true → list_move_to_front n c ≡ c
unfolding list_move_to_front
move_none n c e = ap (λ b. if b then c else list_push_front n (list_remove n c)) e

move_some :
    (n : ℕ) (c : Links)
    → is_at n c.head ≡ false
    → list_move_to_front n c ≡ list_push_front n (list_remove n c)
unfolding list_move_to_front
move_some n c e = ap (λ b. if b then c else list_push_front n (list_remove n c)) e

pub list_move_to_front_lem :
    (n : ℕ) (ys zs : List ℕ) (c : Links)
    → Represents c (ys ++ n ∷ zs)
    → Represents (list_move_to_front n c) (n ∷ ys ++ zs)
list_move_to_front_lem n [] zs c r =
    let here : (n == n) ≡ true = ground arith in
    subst (λ x. Represents x (n ∷ zs)) (sym (move_none n c (ap (is_at n) r.0.0 ∙ here))) r
list_move_to_front_lem n (y ∷ ys) zs c r =
    let (uy, uz, d) = NoDup-split (y ∷ ys) (n ∷ zs) r.1 in
    let fresh : IsFresh n (y ∷ ys ++ zs) =
      All-append (λ x. x ≢ n) (y ∷ ys) zs (Fresh-sym (y ∷ ys) n zs d) uz.0 in
    let y≢n = fresh.0 in
    let elsewhere : (y == n) ≡ false = ground arith in
    subst (λ x. Represents x (n ∷ y ∷ ys ++ zs))
      (sym (move_some n c (ap (is_at n) r.0.0 ∙ elsewhere)))
      (list_push_front_lem n (y ∷ ys ++ zs) (list_remove n c) fresh
        (list_remove_lem n (y ∷ ys) zs c r))
