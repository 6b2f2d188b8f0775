-- ===== src/Base/Slices.antt =====
-- Parts of lists: entries, writes and suffixes.
use Prim.Native.Nat.{ℕ, zero, suc, ◌-◌, ◌≤◌, ◌<◌}
use mathlib.Core.Path.{◌≡◌, refl, ap}
use mathlib.Core.Logic.{◌≢◌}
use mathlib.Core.List.{List, [], ◌∷◌, ◌++◌}
use mathlib.Core.Option.{some}
use native.Mathlib.Omega.{arith}
use urx.Base.Lists.{length, get_elem?, set, replicate}

module _ {ℓ} {A : Type ℓ} where
  abbrev pub drop : ℕ → List A → List A
  drop zero xs = xs
  drop (suc n) [] = []
  drop (suc n) (x ∷ xs) = drop n xs

  -- The last `n` entries.
  abbrev pub last_of : ℕ → List A → List A
  last_of n xs = drop (length xs - n) xs

  pub get_elem?_total : (xs : List A) (i : ℕ) → i < length xs → (a : A) × (get_elem? xs i ≡ some a)
  get_elem?_total [] i h = absurd (omega arith)
  get_elem?_total (x ∷ xs) zero h = (x, refl)
  get_elem?_total (x ∷ xs) (suc i) h = get_elem?_total xs i (omega arith)

  pub get_elem?_bound : (xs : List A) (i : ℕ) (a : A) → get_elem? xs i ≡ some a → i < length xs
  get_elem?_bound [] i a h = cc
  get_elem?_bound (x ∷ xs) zero a h = omega arith
  get_elem?_bound (x ∷ xs) (suc i) a h = omega (arith, get_elem?_bound xs i a h)

  pub length-replicate : (n : ℕ) (a : A) → length (replicate n a) ≡ n
  length-replicate zero a = refl
  length-replicate (suc n) a = ap suc (length-replicate n a)

  pub append_nil : (xs : List A) → xs ++ [] ≡ xs
  append_nil [] = refl
  append_nil (x ∷ xs) = ap (λ ys. x ∷ ys) (append_nil xs)

  pub append_assoc : (xs ys zs : List A) → (xs ++ ys) ++ zs ≡ xs ++ (ys ++ zs)
  append_assoc [] ys zs = refl
  append_assoc (x ∷ xs) ys zs = ap (λ ws. x ∷ ws) (append_assoc xs ys zs)

  pub length-set : (xs : List A) (i : ℕ) (v : A) → length (set xs i v) ≡ length xs
  length-set [] i v = refl
  length-set (x ∷ xs) zero v = refl
  length-set (x ∷ xs) (suc i) v = ap suc (length-set xs i v)

  pub get_elem?-set_same :
      (xs : List A) (i : ℕ) (v : A) → i < length xs → get_elem? (set xs i v) i ≡ some v
  get_elem?-set_same [] i v h = absurd (omega arith)
  get_elem?-set_same (x ∷ xs) zero v h = refl
  get_elem?-set_same (x ∷ xs) (suc i) v h = get_elem?-set_same xs i v (omega arith)

  pub get_elem?-set_other :
      (xs : List A) (i j : ℕ) (v : A) → i ≢ j → get_elem? (set xs i v) j ≡ get_elem? xs j
  get_elem?-set_other [] i j v h = refl
  get_elem?-set_other (x ∷ xs) zero zero v h = absurd (h refl)
  get_elem?-set_other (x ∷ xs) zero (suc j) v h = refl
  get_elem?-set_other (x ∷ xs) (suc i) zero v h = refl
  get_elem?-set_other (x ∷ xs) (suc i) (suc j) v h =
      get_elem?-set_other xs i j v (λ e. h (ap suc e))

  pub get_elem?-append_last : (xs : List A) (v : A) → get_elem? (xs ++ v ∷ []) (length xs) ≡ some v
  get_elem?-append_last [] v = refl
  get_elem?-append_last (x ∷ xs) v = get_elem?-append_last xs v

  pub get_elem?-append :
      (xs ys : List A) (i : ℕ) → i < length xs → get_elem? (xs ++ ys) i ≡ get_elem? xs i
  get_elem?-append [] ys i h = absurd (omega arith)
  get_elem?-append (x ∷ xs) ys zero h = refl
  get_elem?-append (x ∷ xs) ys (suc i) h = get_elem?-append xs ys i (omega arith)

  pub length-drop : (n : ℕ) (xs : List A) → length (drop n xs) ≡ length xs - n
  length-drop zero xs = omega arith
  length-drop (suc n) [] = omega arith
  length-drop (suc n) (x ∷ xs) = omega (arith, length-drop n xs)

  pub get_elem?-drop_one : (xs : List A) (i : ℕ) → get_elem? (drop 1 xs) i ≡ get_elem? xs (suc i)
  get_elem?-drop_one [] i = refl
  get_elem?-drop_one (x ∷ xs) i = refl

  pub drop-append : (n : ℕ) (xs ys : List A) → n ≤ length xs → drop n (xs ++ ys) ≡ drop n xs ++ ys
  drop-append zero xs ys h = refl
  drop-append (suc n) [] ys h = absurd (omega arith)
  drop-append (suc n) (x ∷ xs) ys h = drop-append n xs ys (omega arith)

  pub drop_one-drop : (n : ℕ) (xs : List A) → drop 1 (drop n xs) ≡ drop (suc n) xs
  drop_one-drop zero xs = refl
  drop_one-drop (suc n) [] = refl
  drop_one-drop (suc n) (x ∷ xs) = drop_one-drop n xs

  -- From an index on, as options.
  pub drop-some :
      (xs : List A) (i : ℕ) (x : A) → get_elem? xs i ≡ some x → drop i xs ≡ x ∷ drop (suc i) xs
  drop-some [] i x h = cc
  drop-some (y ∷ xs) zero x h = ap (λ z. z ∷ xs) (ground (arith, h))
  drop-some (y ∷ xs) (suc i) x h = drop-some xs i x h

  pub drop_all : (xs : List A) (i : ℕ) → length xs ≤ i → drop i xs ≡ []
  drop_all [] zero h = refl
  drop_all [] (suc i) h = refl
  drop_all (x ∷ xs) zero h = absurd (omega arith)
  drop_all (x ∷ xs) (suc i) h = drop_all xs i (omega arith)
