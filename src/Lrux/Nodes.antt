-- ===== src/Lrux/Nodes.antt =====
-- lrux/lrux.go: what finding, unlinking, dropping the tail and scanning do to the nodes: how many
-- pass a test, and which keys are there.
use urx.Base.{
  ℕ, suc, ◌+◌, ◌≡◌, refl, sym, ap, ◌∙◌, Bool, true, none, some, List, [], ◌∷◌, ◌++◌, if◌then◌else◌,
  arith, count_if, length, Bool-cases, Option-cases, inl, inr,
}
pub use urx.Base.{IsEquality}
use urx.Lrux.Types.{Node, is_expired}
use urx.Lrux.Cache.{find, erase, split_last}
use urx.Lrux.Sweeps.{scan, scan_while}

abbrev pub one_if : Bool → ℕ
one_if b = if b then 1 else 0

pub count_all {ℓ} : {A : Type ℓ} (xs : List A) → count_if (λ x. true) xs ≡ length xs
count_all [] = refl
count_all (x ∷ xs) = ap suc (count_all xs)

pub count_if-cons {ℓ} :
    {A : Type ℓ} (p : A → Bool) (x : A) (xs : List A)
    → count_if p (x ∷ xs) ≡ one_if (p x) + count_if p xs
count_if-cons p x xs = ground arith

pub count_if-append {ℓ} :
    {A : Type ℓ} (p : A → Bool) (xs ys : List A)
    → count_if p (xs ++ ys) ≡ count_if p xs + count_if p ys
count_if-append p [] ys = omega arith
count_if-append p (x ∷ xs) ys = ground (arith, count_if-append p xs ys)

pub split_last-none {ℓ} : {A : Type ℓ} (xs : List A) → split_last xs ≡ none → xs ≡ []
split_last-none [] h = refl
split_last-none (x ∷ xs) h = elim (Option-cases (split_last xs)) [
  | inl e ↦ let d : split_last (x ∷ xs) ≡ some ([], x) = rw (e, split_last) refl in cc
  | inr (r, e) ↦ let d : split_last (x ∷ xs) ≡ some (x ∷ r.0, r.1) = rw (e, split_last) refl in cc
]

pub split_last-append {ℓ} :
    {A : Type ℓ} (xs init : List A) (last : A)
    → split_last xs ≡ some (init, last)
    → xs ≡ init ++ last ∷ []
split_last-append [] init last h = cc
split_last-append (x ∷ xs) init last h = elim (Option-cases (split_last xs)) [
  | inl e ↦
      let ih = split_last-none xs e in
      let d : split_last (x ∷ xs) ≡ some ([], x) = rw (e, split_last) refl in
      let i : init ≡ [] = cc in let l : last ≡ x = cc in rw (ih, i, l)
  | inr (r, e) ↦
      let ih = split_last-append xs r.0 r.1 e in
      let d : split_last (x ∷ xs) ≡ some (x ∷ r.0, r.1) = rw (e, split_last) refl in
      let i : init ≡ x ∷ r.0 = cc in let l : last ≡ r.1 = cc in rw (i, l) (ap (◌∷◌ x) ih)
]

module _ {ℓ κ} {K : Type ℓ} {V : Type κ} where
  pub count_if-scan :
      (p : Node K V → Bool) (clock : ℕ → ℕ) (i : ℕ) (ns : List (Node K V))
      → count_if p ns ≡ count_if p (scan clock i ns).0 + count_if p (scan clock i ns).1
  count_if-scan p clock i [] = refl
  count_if-scan p clock i (n ∷ ns) = elim (Bool-cases (is_expired (clock i) n)) [
    | inl e ↦ rw (e, scan) (ground (arith, count_if-scan p clock (suc i) ns))
    | inr e ↦ rw (e, scan) (ground (arith, count_if-scan p clock (suc i) ns))
  ]

  pub count_if-scan_while :
      (p : Node K V → Bool) (fn : K → V → Bool) (clock : ℕ → ℕ) (i : ℕ) (ns : List (Node K V))
      → count_if p ns
        ≡ count_if p (scan_while fn clock i ns).0 + count_if p (scan_while fn clock i ns).1
  count_if-scan_while p fn clock i [] = refl
  count_if-scan_while p fn clock i (n ∷ ns) = elim (Bool-cases (is_expired (clock i) n)) [
    | inl e ↦ rw (e, scan_while) (ground (arith, count_if-scan_while p fn clock (suc i) ns))
    | inr e ↦ elim (Bool-cases (fn n.key n.value)) [
      | inl d ↦ rw (e, d, scan_while) (ground (arith, count_if-scan_while p fn clock (suc i) ns))
      | inr d ↦ rw (e, d, scan_while) (ground arith)
    ]
  ]

module _ {ℓ κ} {K : Type ℓ} {V : Type κ} (same : K → K → Bool) (eq : IsEquality same) where
  pub find_key :
      (key : K) (ns : List (Node K V)) (n : Node K V) → find same key ns ≡ some n → n.key ≡ key
  find_key key [] n h = cc
  find_key key (m ∷ ns) n h = elim (Bool-cases (same m.key key)) [
    | inl e ↦
        let d : find same key (m ∷ ns) ≡ some m = rw e in
        ap (λ k. k.key) (let g : n ≡ m = cc in g) ∙ eq.sound m.key key e
    | inr e ↦
        find_key key ns n (let d : find same key (m ∷ ns) ≡ find same key ns = rw e in sym d ∙ h)
  ]

  pub count_if-erase :
      (p : Node K V → Bool) (key : K) (ns : List (Node K V)) (n : Node K V)
      → find same key ns ≡ some n
      → count_if p ns ≡ one_if (p n) + count_if p (erase same key ns)
  count_if-erase p key [] n h = cc
  count_if-erase p key (m ∷ ns) n h = elim (Bool-cases (same m.key key)) [
    | inl e ↦
        let d : find same key (m ∷ ns) ≡ some m = rw e in
        let g : m ≡ n = cc in rw (e, g) (ground arith)
    | inr e ↦
        let d : find same key (m ∷ ns) ≡ find same key ns = rw e in
        rw e (ground (arith, count_if-erase p key ns n (sym d ∙ h)))
  ]
