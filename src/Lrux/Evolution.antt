-- ===== src/Lrux/Evolution.antt =====
-- lrux/lrux.go: how the nodes change: some are dropped, or one with a key of its own comes in front.
use urx.Base.{
  ℕ, suc, ◌≤◌, ◌≡◌, refl, sym, subst, ◌∙◌, Bool, false, none, some, List, [], ◌∷◌, ◌++◌, arith, All,
  Bool-cases, inl, inr,
}
use mathlib.Core.List.{Sublistᴰ}
use urx.Lrux.Types.{Node, is_expired}
use urx.Lrux.Cache.{find, erase, split_last}
use urx.Lrux.Sweeps.{scan, scan_while}
use urx.Lrux.Nodes.{IsEquality, split_last-append}

pub sublist_refl {ℓ} : {A : Type ℓ} (xs : List A) → Sublistᴰ xs xs
sublist_refl [] = Sublistᴰ.slnil
sublist_refl (x ∷ xs) = Sublistᴰ.cons-cons refl (sublist_refl xs)

pub sublist_nil {ℓ} : {A : Type ℓ} (xs : List A) → Sublistᴰ [] xs
sublist_nil [] = Sublistᴰ.slnil
sublist_nil (x ∷ xs) = Sublistᴰ.cons (sublist_nil xs)

sublist_init {ℓ} : {A : Type ℓ} (init : List A) (last : A) → Sublistᴰ init (init ++ last ∷ [])
sublist_init [] last = Sublistᴰ.cons Sublistᴰ.slnil
sublist_init (x ∷ xs) last = Sublistᴰ.cons-cons refl (sublist_init xs last)

pub split_last-sublist {ℓ} :
    {A : Type ℓ} (xs init : List A) (last : A)
    → split_last xs ≡ some (init, last)
    → Sublistᴰ init xs
split_last-sublist xs init last h =
    subst (λ k. Sublistᴰ init k) (sym (split_last-append xs init last h)) (sublist_init init last)

pub All-sublist {ℓ κ} :
    {A : Type ℓ} (P : A → Type κ) {ys xs : List A} → Sublistᴰ ys xs → All P xs → All P ys
All-sublist P Sublistᴰ.slnil a = tt
All-sublist P (Sublistᴰ.cons s) a = All-sublist P s a.1
All-sublist P (Sublistᴰ.cons-cons e s) a = (subst P (sym e) a.0, All-sublist P s a.1)

module _ {ℓ κ} {K : Type ℓ} {V : Type κ} where
  pub scan-sublist :
      (clock : ℕ → ℕ) (i : ℕ) (ns : List (Node K V)) → Sublistᴰ (scan clock i ns).0 ns
  scan-sublist clock i [] = Sublistᴰ.slnil
  scan-sublist clock i (n ∷ ns) = elim (Bool-cases (is_expired (clock i) n)) [
    | inl e ↦ rw (e, scan) (Sublistᴰ.cons (scan-sublist clock (suc i) ns))
    | inr e ↦ rw (e, scan) (Sublistᴰ.cons-cons refl (scan-sublist clock (suc i) ns))
  ]

  pub scan_while-sublist :
      (fn : K → V → Bool) (clock : ℕ → ℕ) (i : ℕ) (ns : List (Node K V))
      → Sublistᴰ (scan_while fn clock i ns).0 ns
  scan_while-sublist fn clock i [] = Sublistᴰ.slnil
  scan_while-sublist fn clock i (n ∷ ns) = elim (Bool-cases (is_expired (clock i) n)) [
    | inl e ↦ rw (e, scan_while) (Sublistᴰ.cons (scan_while-sublist fn clock (suc i) ns))
    | inr e ↦ elim (Bool-cases (fn n.key n.value)) [
      | inl d ↦
          rw (e, d, scan_while) (Sublistᴰ.cons-cons refl (scan_while-sublist fn clock (suc i) ns))
      | inr d ↦ rw (e, d, scan_while) (sublist_refl (n ∷ ns))
    ]
  ]

  -- From the front on, each node was accessed no later than the one before it, and the first no
  -- later than `bound`.
  abbrev pub IsRecent : ℕ → List (Node K V) → Type 0
  IsRecent bound [] = Unit
  IsRecent bound (n ∷ ns) = (n.accessed_at ≤ bound) × IsRecent n.accessed_at ns

  pub IsRecent-later : (a b : ℕ) (ns : List (Node K V)) → a ≤ b → IsRecent a ns → IsRecent b ns
  IsRecent-later a b [] h r = tt
  IsRecent-later a b (n ∷ ns) h r = (omega (arith, r.0), r.1)

  pub IsRecent-sublist :
      (bound : ℕ) {ys xs : List (Node K V)} → Sublistᴰ ys xs → IsRecent bound xs → IsRecent bound ys
  IsRecent-sublist bound Sublistᴰ.slnil r = tt
  IsRecent-sublist bound {xs = x ∷ _} (Sublistᴰ.cons s) r =
      IsRecent-sublist bound s (IsRecent-later x.accessed_at bound _ r.0 r.1)
  IsRecent-sublist bound {ys = a ∷ ys} {xs = b ∷ xs} (Sublistᴰ.cons-cons e s) r =
      subst (λ z. IsRecent bound (z ∷ ys)) (sym e) (r.0, IsRecent-sublist b.accessed_at s r.1)

module _ {ℓ κ} {K : Type ℓ} {V : Type κ} (same : K → K → Bool) where
  pub erase-sublist : (key : K) (ns : List (Node K V)) → Sublistᴰ (erase same key ns) ns
  erase-sublist key [] = Sublistᴰ.slnil
  erase-sublist key (n ∷ ns) = elim (Bool-cases (same n.key key)) [
    | inl e ↦ rw e (Sublistᴰ.cons (sublist_refl ns))
    | inr e ↦ rw e (Sublistᴰ.cons-cons refl (erase-sublist key ns))
  ]

  -- None of the nodes has the key.
  abbrev pub IsOther : K → List (Node K V) → Type 0
  IsOther key ns = All (λ n. same n.key key ≡ false) ns

  abbrev pub IsDistinct : List (Node K V) → Type 0
  IsDistinct [] = Unit
  IsDistinct (n ∷ ns) = IsOther n.key ns × IsDistinct ns

  pub IsDistinct-sublist :
      {ys xs : List (Node K V)} → Sublistᴰ ys xs → IsDistinct xs → IsDistinct ys
  IsDistinct-sublist Sublistᴰ.slnil d = tt
  IsDistinct-sublist (Sublistᴰ.cons s) d = IsDistinct-sublist s d.1
  IsDistinct-sublist {ys = a ∷ ys} {xs = b ∷ xs} (Sublistᴰ.cons-cons e s) d =
      subst (λ z. IsDistinct (z ∷ ys)) (sym e)
        (All-sublist (λ n. same n.key b.key ≡ false) s d.0, IsDistinct-sublist s d.1)

  pub missing-IsOther : (key : K) (ns : List (Node K V)) → find same key ns ≡ none → IsOther key ns
  missing-IsOther key [] h = tt
  missing-IsOther key (n ∷ ns) h = elim (Bool-cases (same n.key key)) [
    | inl e ↦ let d : find same key (n ∷ ns) ≡ some n = rw e in cc
    | inr e ↦
        let d : find same key (n ∷ ns) ≡ find same key ns = rw e in
        (e, missing-IsOther key ns (sym d ∙ h))
  ]

  pub erase-IsOther :
      IsEquality same
      → (key : K) (ns : List (Node K V)) → IsDistinct ns
      → IsOther key (erase same key ns)
  erase-IsOther eq key [] d = tt
  erase-IsOther eq key (n ∷ ns) d = elim (Bool-cases (same n.key key)) [
    | inl e ↦ rw e (subst (λ k. IsOther k ns) (eq.sound n.key key e) d.0)
    | inr e ↦ rw e (e, erase-IsOther eq key ns d.1)
  ]

  -- How an operation at the time `now` changes the nodes.
  pub data Evolves (now : ℕ) : List (Node K V) → List (Node K V) → Type (ℓ ⊔ κ) where
    drops : {xs ys : List (Node K V)} → Sublistᴰ ys xs → Evolves now xs ys
    fronts :
        {xs ys : List (Node K V)} (n : Node K V)
        → n.accessed_at ≡ now
        → Sublistᴰ ys xs
        → IsOther n.key ys
        → Evolves now xs (n ∷ ys)
    follows :
        {xs ys zs : List (Node K V)} → Evolves now xs ys → Evolves now ys zs → Evolves now xs zs

  pub Evolves-IsDistinct :
      (now : ℕ) {xs ys : List (Node K V)} → Evolves now xs ys → IsDistinct xs → IsDistinct ys
  Evolves-IsDistinct now (drops s) d = IsDistinct-sublist s d
  Evolves-IsDistinct now (fronts n e s o) d = (o, IsDistinct-sublist s d)
  Evolves-IsDistinct now (follows a b) d = Evolves-IsDistinct now b (Evolves-IsDistinct now a d)

  pub Evolves-IsRecent :
      (now : ℕ) {xs ys : List (Node K V)} → Evolves now xs ys → IsRecent now xs → IsRecent now ys
  Evolves-IsRecent now (drops s) r = IsRecent-sublist now s r
  Evolves-IsRecent now (fronts n e s o) r = (
    omega (arith, e),
    IsRecent-later now n.accessed_at _ (omega (arith, e)) (IsRecent-sublist now s r),
  )
  Evolves-IsRecent now (follows a b) r = Evolves-IsRecent now b (Evolves-IsRecent now a r)
