-- ===== src/Base/Lists.antt =====
-- Lists measured and indexed by native numbers, under the library's names.
use Prim.Native.Nat.{ℕ, zero, suc, ◌+◌, ◌≤◌}
use mathlib.Core.Path.{◌≡◌, refl, subst, ap}
use mathlib.Core.Bool.{Bool}
use mathlib.Core.List.{List, [], ◌∷◌, ◌++◌}
use mathlib.Core.Option.{Option, none, some}
use native.Mathlib.Omega.{arith}
use urx.Base.Tests.{if◌then◌else◌}

module _ {ℓ} {A : Type ℓ} where
  abbrev pub length : List A → ℕ
  length [] = 0
  length (x ∷ xs) = suc (length xs)

  abbrev pub get_elem? : List A → ℕ → Option A
  get_elem? [] i = none
  get_elem? (x ∷ xs) zero = some x
  get_elem? (x ∷ xs) (suc i) = get_elem? xs i

  -- A write out of bounds changes nothing.
  abbrev pub set : List A → ℕ → A → List A
  set [] i v = []
  set (x ∷ xs) zero v = v ∷ xs
  set (x ∷ xs) (suc i) v = x ∷ set xs i v

  -- The list without its entry at an index; out of bounds nothing changes.
  abbrev pub erase_idx : List A → ℕ → List A
  erase_idx [] i = []
  erase_idx (x ∷ xs) zero = xs
  erase_idx (x ∷ xs) (suc i) = x ∷ erase_idx xs i

  abbrev pub take : ℕ → List A → List A
  take zero xs = []
  take (suc n) [] = []
  take (suc n) (x ∷ xs) = x ∷ take n xs

  abbrev pub replicate : ℕ → A → List A
  replicate zero a = []
  replicate (suc n) a = a ∷ replicate n a

  -- How many entries pass a test.
  abbrev pub count_if : (A → Bool) → List A → ℕ
  count_if p [] = 0
  count_if p (x ∷ xs) = let rest = count_if p xs in if p x then suc rest else rest

  abbrev pub All {κ} : (A → Type κ) → List A → Type κ
  All P [] = Unit
  All P (x ∷ xs) = P x × All P xs

  pub length-append : (xs ys : List A) → length (xs ++ ys) ≡ length xs + length ys
  length-append [] ys = omega arith
  length-append (x ∷ xs) ys = omega (arith, length-append xs ys)

  pub take-all : (n : ℕ) (xs : List A) → length xs ≤ n → take n xs ≡ xs
  take-all zero [] h = refl
  take-all zero (x ∷ xs) h = absurd (omega arith)
  take-all (suc n) [] h = refl
  take-all (suc n) (x ∷ xs) h = ap (◌∷◌ x) (take-all n xs (omega arith))

  pub take-append : (n : ℕ) (xs ys : List A) → n ≤ length xs → take n (xs ++ ys) ≡ take n xs
  take-append zero xs ys h = refl
  take-append (suc n) [] ys h = absurd (omega arith)
  take-append (suc n) (x ∷ xs) ys h = ap (◌∷◌ x) (take-append n xs ys (omega arith))

  -- Counts and predicates over a write and a removal at an index.
  pub count_if-set :
      (p : A → Bool) (xs : List A) (i : ℕ) (x y : A)
      → get_elem? xs i ≡ some x
      → p y ≡ p x
      → count_if p (set xs i y) ≡ count_if p xs
  count_if-set p [] i x y h e = refl
  count_if-set p (z ∷ xs) zero x y h e = ground arith
  count_if-set p (z ∷ xs) (suc i) x y h e = ground (arith, count_if-set p xs i x y h e)

  pub count_if-write :
      (p : A → Bool) (xs : List A) (i : ℕ) (x y : A)
      → get_elem? xs i ≡ some x
      → count_if p (set xs i y) + (if p x then 1 else 0) ≡ count_if p xs + (if p y then 1 else 0)
  count_if-write p [] i x y h = cc
  count_if-write p (z ∷ xs) zero x y h = ground arith
  count_if-write p (z ∷ xs) (suc i) x y h = ground (arith, count_if-write p xs i x y h)

  pub count_if-erase_idx :
      (p : A → Bool) (xs : List A) (i : ℕ) (x : A)
      → get_elem? xs i ≡ some x
      → count_if p xs ≡ count_if p (erase_idx xs i) + (if p x then 1 else 0)
  count_if-erase_idx p [] i x h = cc
  count_if-erase_idx p (z ∷ xs) zero x h = ground arith
  count_if-erase_idx p (z ∷ xs) (suc i) x h = ground (arith, count_if-erase_idx p xs i x h)

  module _ {κ} (P : A → Type κ) where
    pub All-set : (xs : List A) (i : ℕ) {y : A} → P y → All P xs → All P (set xs i y)
    All-set [] i h a = tt
    All-set (x ∷ xs) zero h a = (h, a.1)
    All-set (x ∷ xs) (suc i) h a = (a.0, All-set xs i h a.1)

    pub All-erase_idx : (xs : List A) (i : ℕ) → All P xs → All P (erase_idx xs i)
    All-erase_idx [] i a = tt
    All-erase_idx (x ∷ xs) zero a = a.1
    All-erase_idx (x ∷ xs) (suc i) a = (a.0, All-erase_idx xs i a.1)

    pub All-get_elem? : (xs : List A) (i : ℕ) (x : A) → get_elem? xs i ≡ some x → All P xs → P x
    All-get_elem? [] i x h a = cc
    All-get_elem? (y ∷ xs) zero x h a = subst P (ground arith) a.0
    All-get_elem? (y ∷ xs) (suc i) x h a = All-get_elem? xs i x h a.1

    pub All-map {ρ} : (Q : A → Type ρ) (xs : List A) → ((x : A) → P x → Q x) → All P xs → All Q xs
    All-map Q [] f a = tt
    All-map Q (x ∷ xs) f a = (f x a.0, All-map Q xs f a.1)

    pub All-append : (xs ys : List A) → All P xs → All P ys → All P (xs ++ ys)
    All-append [] ys a b = b
    All-append (x ∷ xs) ys a b = (a.0, All-append xs ys a.1 b)

    pub All-split : (xs ys : List A) → All P (xs ++ ys) → All P xs × All P ys
    All-split [] ys a = (tt, a)
    All-split (x ∷ xs) ys a = let (b, c) = All-split xs ys a.1 in ((a.0, b), c)
