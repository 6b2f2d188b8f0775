-- ===== src/Lrux/Lists.antt =====
-- lrux/lrux.go: the intrusive list does under any sequence of calls what a list does.
use urx.Base.{
  ℕ, ◌≡◌, inl, inr, refl, sym, ap, subst, ◌∙◌, Bool, true, false, Option, none, some, List, [], ◌∷◌,
  ◌++◌, if◌then◌else◌, ◌==◌, length, arith, Bool-cases,
}
use urx.Lrux.Links.{Links, list_push_front, list_remove, list_move_to_front, walk}
use urx.Lrux.Chains.{IsFresh, Linked, Represents}
use urx.Lrux.Relinks.{list_remove_lem, list_push_front_lem, list_move_to_front_lem}

-- The cache's calls: `push` for a new node, `remove` and `move` for one that is in the list.
pub data ListOp : Type 0 where
  push remove move : ℕ → ListOp

abbrev pub run_links : List ListOp → Links → Links
run_links [] c = c
run_links (push n ∷ ops) c = run_links ops (list_push_front n c)
run_links (remove n ∷ ops) c = run_links ops (list_remove n c)
run_links (move n ∷ ops) c = run_links ops (list_move_to_front n c)

abbrev pub without : ℕ → List ℕ → List ℕ
without n [] = []
without n (x ∷ xs) = let rest = without n xs in if x == n then xs else x ∷ rest

-- What the calls mean for the list of nodes; `none` where a call is not allowed.
abbrev pub is_in : ℕ → List ℕ → Bool
is_in n [] = false
is_in n (x ∷ xs) = let rest = is_in n xs in if x == n then true else rest

abbrev pub run_list : List ListOp → List ℕ → Option (List ℕ)
run_list [] xs = some xs
run_list (push n ∷ ops) xs = let rest = run_list ops (n ∷ xs) in if is_in n xs then none else rest
run_list (remove n ∷ ops) xs =
    let rest = run_list ops (without n xs) in if is_in n xs then rest else none
run_list (move n ∷ ops) xs =
    let rest = run_list ops (n ∷ without n xs) in if is_in n xs then rest else none

is_in-Fresh : (n : ℕ) (xs : List ℕ) → is_in n xs ≡ false → IsFresh n xs
is_in-Fresh n [] h = tt
is_in-Fresh n (x ∷ xs) h =
    let rest : is_in n xs ≡ false = ground arith in (ground arith, is_in-Fresh n xs rest)

-- A node that is in the list stands somewhere in it.
found :
    (n : ℕ) (xs : List ℕ)
    → is_in n xs ≡ true
    → (ys : List ℕ) × (zs : List ℕ) × (xs ≡ ys ++ n ∷ zs) × (without n xs ≡ ys ++ zs)
found n [] h = cc
found n (x ∷ xs) h = elim (Bool-cases (x == n)) [
  | inl e ↦ ([], xs, ground arith, ground arith)
  | inr e ↦
      let rest : is_in n xs ≡ true = ground arith in
      let (ys, zs, a, b) = found n xs rest in (x ∷ ys, zs, ap (◌∷◌ x) a, rw e (ap (◌∷◌ x) b))
]

-- The intrusive list stands after any allowed sequence of calls for the list that the calls make.
pub run_links-Represents :
    (ops : List ListOp) (c : Links) (xs ys : List ℕ)
    → Represents c xs
    → run_list ops xs ≡ some ys
    → Represents (run_links ops c) ys
run_links-Represents [] c xs ys r e = subst (Represents c) (ground arith) r
run_links-Represents (push n ∷ ops) c xs ys r e = elim (Bool-cases (is_in n xs)) [
  | inl i ↦ absurd (ground (arith, i, e))
  | inr i ↦
      run_links-Represents ops (list_push_front n c) (n ∷ xs) ys
        (list_push_front_lem n xs c (is_in-Fresh n xs i) r) (ground arith)
]
run_links-Represents (remove n ∷ ops) c xs ys r e = elim (Bool-cases (is_in n xs)) [
  | inr i ↦ absurd (ground (arith, i, e))
  | inl i ↦
      let (before, after, a, b) = found n xs i in
      run_links-Represents ops (list_remove n c) (without n xs) ys
        (subst (Represents (list_remove n c)) (sym b)
          (list_remove_lem n before after c (subst (Represents c) a r)))
        (ground arith)
]
run_links-Represents (move n ∷ ops) c xs ys r e = elim (Bool-cases (is_in n xs)) [
  | inr i ↦ absurd (ground (arith, i, e))
  | inl i ↦
      let (before, after, a, b) = found n xs i in
      run_links-Represents ops (list_move_to_front n c) (n ∷ without n xs) ys
        (subst (λ x. Represents (list_move_to_front n c) (n ∷ x)) (sym b)
          (list_move_to_front_lem n before after c (subst (Represents c) a r)))
        (ground arith)
]

walk_forward :
    (next prev : ℕ → Option ℕ) (p : Option ℕ) (xs : List ℕ) (h t : Option ℕ)
    → Linked next prev p xs none h t
    → walk next (length xs) h ≡ xs
walk_forward next prev p [] h t l = refl
walk_forward next prev p (x ∷ xs) h t (e, d, l) =
    rw (e, walk) (ap (◌∷◌ x) (walk_forward next prev (some x) xs (next x) t l))

-- A walk from the head meets the nodes that the list stands for, in their order, and ends after as
-- many as `size` says.
pub walk_lem : (c : Links) (xs : List ℕ) → Represents c xs → walk c.next c.size c.head ≡ xs
walk_lem c xs r =
    ap (λ k. walk c.next k c.head) r.2 ∙ walk_forward c.next c.prev none xs c.head c.tail r.0
