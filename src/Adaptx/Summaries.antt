-- ===== src/Adaptx/Summaries.antt =====
-- adaptx/adaptx.go: the order of the latencies that `Stats` reports.
use urx.Base.{
  ℕ, zero, suc, ◌+◌, ◌-◌, ◌*◌, ◌/◌, ◌≤◌, ◌<◌, ◌≡◌, refl, ap, ◌∙◌, some, List, [], ◌∷◌, arith,
  length, get_elem?, All, All-map, All-get_elem?, if◌then◌else◌, ltb, leb, if-cases, if-intro,
}
use native.Mathlib.Nat.{div-le_of_le-mul, le-div_iff_mul-le, suc-mul, mul_comm}
use urx.Base.Slices.{get_elem?_total}
use urx.Adaptx.Stats.{scan, insert, sort, or_zero, percentile, summarize}

abbrev IsIn : ℕ → ℕ → ℕ → Type 0
IsIn low high d = (low ≤ d) × (d ≤ high)

-- The scan's bounds hold of what it met, and its sum of that many of them.
scan_lem :
    (ds : List ℕ) (total low high : ℕ)
    → let (total', low', high') = scan ds total low high in
      (low' ≤ low)
      × (high ≤ high')
      × All (IsIn low' high') ds
      × (total + length ds * low' ≤ total')
      × (total' ≤ total + length ds * high')
unfolding scan
scan_lem [] total low high = (omega arith, omega arith, tt, omega arith, omega arith)
scan_lem (d ∷ ds) total low high =
    let low1 = if ltb d low then d else low in
    let high1 = if ltb high d then d else high in
    let (a, b, c, e, f) = scan_lem ds (total + d) low1 high1 in
    let (total', low', high') = scan ds (total + d) low1 high1 in
    let below : low1 ≤ d = ground arith in
    let below' : low1 ≤ low = ground arith in
    let above : d ≤ high1 = ground arith in
    let above' : high ≤ high1 = ground arith in
    (
      omega (arith, a, below'),
      omega (arith, b, above'),
      ((omega (arith, a, below), omega (arith, b, above)), c),
      omega (arith, e, a, below, suc-mul (length ds) low'),
      omega (arith, f, b, above, suc-mul (length ds) high'),
    )

insert-All :
    (low high x : ℕ) (ys : List ℕ)
    → IsIn low high x
    → All (IsIn low high) ys
    → All (IsIn low high) (insert x ys)
unfolding insert
insert-All low high x [] h a = (h, tt)
insert-All low high x (y ∷ ys) h a =
    if-intro (All (IsIn low high)) (leb x y) (x ∷ y ∷ ys) (y ∷ insert x ys) (h, a)
      (a.0, insert-All low high x ys h a.1)

sort-All : (low high : ℕ) (xs : List ℕ) → All (IsIn low high) xs → All (IsIn low high) (sort xs)
unfolding sort
sort-All low high [] a = tt
sort-All low high (x ∷ xs) a = insert-All low high x (sort xs) a.0 (sort-All low high xs a.1)

length-insert : (x : ℕ) (ys : List ℕ) → length (insert x ys) ≡ suc (length ys)
unfolding insert
length-insert x [] = refl
length-insert x (y ∷ ys) =
    if-intro (λ (zs : List ℕ). length zs ≡ suc (suc (length ys))) (leb x y) (x ∷ y ∷ ys)
      (y ∷ insert x ys) refl (ap suc (length-insert x ys))

length-sort : (xs : List ℕ) → length (sort xs) ≡ length xs
unfolding sort
length-sort [] = refl
length-sort (x ∷ xs) = length-insert x (sort xs) ∙ ap suc (length-sort xs)

-- Each entry is at most those after it.
abbrev pub IsSorted : List ℕ → Type 0
IsSorted [] = Unit
IsSorted (x ∷ xs) = All (λ y. x ≤ y) xs × IsSorted xs

insert-above :
    (y x : ℕ) (ys : List ℕ) → y ≤ x → All (λ z. y ≤ z) ys → All (λ z. y ≤ z) (insert x ys)
unfolding insert
insert-above y x [] h a = (h, tt)
insert-above y x (z ∷ zs) h a =
    if-intro (All (λ w. y ≤ w)) (leb x z) (x ∷ z ∷ zs) (z ∷ insert x zs) (h, a)
      (a.0, insert-above y x zs h a.1)

insert-IsSorted : (x : ℕ) (ys : List ℕ) → IsSorted ys → IsSorted (insert x ys)
unfolding insert
insert-IsSorted x [] s = (tt, tt)
insert-IsSorted x (y ∷ ys) (a, s) =
    if-cases IsSorted (leb x y) (x ∷ y ∷ ys) (y ∷ insert x ys)
      (λ e.
        let h : x ≤ y = ground arith in
        ((h, All-map (λ z. y ≤ z) (λ z. x ≤ z) ys (λ z k. omega (arith, h, k)) a), (a, s)))
      (λ e. let h : y ≤ x = ground arith in (insert-above y x ys h a, insert-IsSorted x ys s))

sort-IsSorted : (xs : List ℕ) → IsSorted (sort xs)
unfolding sort
sort-IsSorted [] = tt
sort-IsSorted (x ∷ xs) = insert-IsSorted x (sort xs) (sort-IsSorted xs)

sorted_le :
    (xs : List ℕ) (i j a b : ℕ)
    → IsSorted xs
    → i ≤ j
    → get_elem? xs i ≡ some a
    → get_elem? xs j ≡ some b
    → a ≤ b
sorted_le [] i j a b s h p q = cc
sorted_le (x ∷ xs) zero zero a b s h p q = ground (arith, p, q)
sorted_le (x ∷ xs) zero (suc j) a b s h p q =
    let k = All-get_elem? (λ z. x ≤ z) xs j b q s.0 in ground (arith, p, k)
sorted_le (x ∷ xs) (suc i) zero a b s h p q = absurd (omega arith)
sorted_le (x ∷ xs) (suc i) (suc j) a b s h p q = sorted_le xs i j a b s.1 (omega arith) p q

-- A percentile of a list that is not empty is an entry of it, and the higher rank has the larger one.
percentiles :
    (low high : ℕ) (xs : List ℕ)
    → 0 < length xs
    → All (IsIn low high) xs
    → IsSorted xs
    → (low ≤ percentile 50 xs) × (percentile 50 xs ≤ percentile 99 xs) × (percentile 99 xs ≤ high)
unfolding percentile
percentiles low high xs h a s =
    let i = (length xs - 1) * 50 / 100 in
    let j = (length xs - 1) * 99 / 100 in
    let (x, p) = get_elem?_total xs i (omega (arith, h)) in
    let (y, q) = get_elem?_total xs j (omega (arith, h)) in
    let x_in = All-get_elem? (IsIn low high) xs i x p a in
    let y_in = All-get_elem? (IsIn low high) xs j y q a in
    let le = sorted_le xs i j x y s (omega arith) p q in
    let ep = ap or_zero p in
    let eq = ap or_zero q in
    (omega (arith, ep, x_in), omega (arith, ep, eq, le), omega (arith, eq, y_in))

-- The latencies that Stats reports of one or more recent samples are in order: the minimum, the median
-- and the 99th percentile, the maximum; and the average lies between minimum and maximum.
pub summarize_ordered :
    (d : ℕ) (ds : List ℕ)
    → let s = summarize (d ∷ ds) in
      (s.low ≤ s.q50) × (s.q50 ≤ s.q99) × (s.q99 ≤ s.high) × (s.low ≤ s.avg) × (s.avg ≤ s.high)
unfolding summarize
summarize_ordered d ds =
    let (total, low, high) = scan (d ∷ ds) 0 d 0 in
    let (a, b, c, e, f) = scan_lem (d ∷ ds) 0 d 0 in
    let sorted = sort (d ∷ ds) in
    let n = length (d ∷ ds) in
    let (q, r, t) =
      percentiles low high sorted (omega (arith, length-sort (d ∷ ds)))
        (sort-All low high (d ∷ ds) c) (sort-IsSorted (d ∷ ds)) in
    (
      q,
      r,
      t,
      (le-div_iff_mul-le {k = n} {x = low} {y = total} (omega arith)).1
          (omega (arith, e, mul_comm n low)),
      div-le_of_le-mul n (omega (arith, f)),
    )
