-- ===== src/Base/Tests.antt =====
-- Boolean tests on the native numbers and on texts, the conditional, and case lemmas.
use Prim.Native.Nat.{ℕ, ◌≤◌, ◌<◌, compare, Ordering}
use Prim.Native.String.{String}
use mathlib.Core.Path.{◌≡◌, refl}
use mathlib.Core.Logic.{◌⊎◌, inl, inr}
use mathlib.Core.Bool.{Bool, true, false}
use mathlib.Core.Option.{Option, none, some}
use native.Mathlib.Omega.{arith}

abbrev pub ltb : ℕ → ℕ → Bool
ltb a b = elim (compare a b) [ Ordering.lt ↦ true | _ ↦ false ]

abbrev pub leb : ℕ → ℕ → Bool
leb a b = elim (compare a b) [ Ordering.gt ↦ false | _ ↦ true ]

infix 50 ◌==◌
abbrev pub ◌==◌ : ℕ → ℕ → Bool
a == b = elim (compare a b) [ Ordering.eq ↦ true | _ ↦ false ]

infix 1 if◌then◌else◌
abbrev pub if◌then◌else◌ {ℓ} : {A : Type ℓ} → Bool → A → A → A
if true then x else y = x
if false then x else y = y

abbrev pub is_empty : String → Bool
is_empty String.[] = true
is_empty (String.◌∷◌ _ _) = false

pub Bool-cases : (b : Bool) → (b ≡ true) ⊎ (b ≡ false)
Bool-cases true = inl refl
Bool-cases false = inr refl

pub Option-cases {ℓ} : {A : Type ℓ} (o : Option A) → (o ≡ none) ⊎ ((a : A) × (o ≡ some a))
Option-cases none = inl refl
Option-cases (some a) = inr (a, refl)

pub ltb→lt : (a b : ℕ) → ltb a b ≡ true → a < b
ltb→lt a b h = ground arith

pub ltb→ge : (a b : ℕ) → ltb a b ≡ false → b ≤ a
ltb→ge a b h = ground arith

pub lt→ltb : (a b : ℕ) → a < b → ltb a b ≡ true
lt→ltb a b h = ground arith

pub ge→ltb : (a b : ℕ) → b ≤ a → ltb a b ≡ false
ge→ltb a b h = ground arith

-- What holds of both branches holds of the conditional.
pub if-intro {ℓ κ} :
    {A : Type ℓ} (P : A → Type κ) (c : Bool) (x y : A) → P x → P y → P (if c then x else y)
if-intro P true x y p q = p
if-intro P false x y p q = q

-- The same with what the branch knows of the test.
pub if-cases {ℓ κ} :
    {A : Type ℓ} (P : A → Type κ) (c : Bool) (x y : A)
    → (c ≡ true → P x)
    → (c ≡ false → P y)
    → P (if c then x else y)
if-cases P true x y p q = p refl
if-cases P false x y p q = q refl

-- The same for two values that hang on one test.
pub if-both {ℓ κ μ} :
    {A : Type ℓ} {B : Type κ} (P : A → B → Type μ) (c : Bool) (x y : A) (v w : B)
    → P x v
    → P y w
    → P (if c then x else y) (if c then v else w)
if-both P true x y v w p q = p
if-both P false x y v w p q = q

pub if-cong {ℓ} :
    {A : Type ℓ} (c : Bool) {x y v w : A}
    → (c ≡ true → x ≡ v)
    → (c ≡ false → y ≡ w)
    → (if c then x else y) ≡ (if c then v else w)
if-cong true p q = p refl
if-cong false p q = q refl

pub if_true {ℓ} : {A : Type ℓ} (c : Bool) (x y : A) → c ≡ true → (if c then x else y) ≡ x
if_true c x y e = rw e

pub if_false {ℓ} : {A : Type ℓ} (c : Bool) (x y : A) → c ≡ false → (if c then x else y) ≡ y
if_false c x y e = rw e

pub le→leb : (a b : ℕ) → a ≤ b → leb a b ≡ true
le→leb a b h = ground arith

-- What is relied on of Go's `==`: keys that are not equal to themselves (NaN) are left out.
pub record IsEquality {ℓ} {K : Type ℓ} (same : K → K → Bool) : Type ℓ where
  pub reflexive : (a : K) → same a a ≡ true
  pub sound : (a b : K) → same a b ≡ true → a ≡ b
