-- ===== src/Quotax/Tables.antt =====
-- quotax/quotax.go: how the operations on the table of buckets act together.
use urx.Base.{
  suc, ◌+◌, ◌≡◌, inl, inr, refl, sym, ap, ◌∙◌, Bool, true, false, not, Option, some, List, [], ◌∷◌,
  arith, length, count_if, if◌then◌else◌, if-intro, if-cases, if_false, Bool-cases,
}
use urx.Base.{IsEquality, if_true}
use urx.Quotax.Table.{Bucket, Entry, keep_if, find, replace, erase}

module _ {ℓ} {K : Type ℓ} where
  pub keep_if-split :
      (test : Entry K → Bool) (es : List (Entry K))
      → length (keep_if (λ e. not (test e)) es) + count_if test es ≡ length es
  keep_if-split test [] = refl
  keep_if-split test (e ∷ es) = ground (arith, keep_if-split test es)

  module _ (same : K → K → Bool) where
    pub length-replace :
        (key : K) (b : Bucket) (es : List (Entry K)) → length (replace same key b es) ≡ length es
    length-replace key b [] = refl
    length-replace key b (e ∷ es) =
        if-intro (λ (xs : List (Entry K)). length xs ≡ suc (length es)) (same e.key key)
          (record e { bucket = b } ∷ es) (e ∷ replace same key b es) refl
          (ap suc (length-replace key b es))

    pub length-erase :
        (key : K) (b : Bucket) (es : List (Entry K))
        → find same key es ≡ some b
        → suc (length (erase same key es)) ≡ length es
    length-erase key b [] h = cc
    length-erase key b (e ∷ es) h =
        if-cases (λ (xs : List (Entry K)). suc (length xs) ≡ suc (length es)) (same e.key key) es
          (e ∷ erase same key es) (λ k. refl)
          (λ k. ap suc (
            length-erase key b es
              (sym (if_false (same e.key key) (some e.bucket) (find same key es) k) ∙ h)))

  module _ (same : K → K → Bool) (eq : IsEquality same) where
    pub find-replace-same :
        (key : K) (b0 b : Bucket) (es : List (Entry K))
        → find same key es ≡ some b0
        → find same key (replace same key b es) ≡ some b
    find-replace-same key b0 b [] h = cc
    find-replace-same key b0 b (e ∷ es) h =
        if-cases (λ (xs : List (Entry K)). find same key xs ≡ some b) (same e.key key)
          (record e { bucket = b } ∷ es) (e ∷ replace same key b es)
          (λ k. if_true (same e.key key) (some b) (find same key es) k)
          (λ k.
            if_false (same e.key key) (some e.bucket) (find same key (replace same key b es)) k
            ∙ find-replace-same key b0 b es
                (sym (if_false (same e.key key) (some e.bucket) (find same key es) k) ∙ h))

    pub find-replace-other :
        (k key : K) (b : Bucket) (es : List (Entry K))
        → same k key ≡ false
        → find same key (replace same k b es) ≡ find same key es
    find-replace-other k key b [] d = refl
    find-replace-other k key b (e ∷ es) d =
        let rest = find-replace-other k key b es d in
        if-cases (λ (xs : List (Entry K)). find same key xs ≡ find same key (e ∷ es)) (same e.key k)
          (record e { bucket = b } ∷ es) (e ∷ replace same k b es)
          (λ t.
            let other : same e.key key ≡ false = ap (λ x. same x key) (eq.sound e.key k t) ∙ d in
            if_false (same e.key key) (some b) (find same key es) other
            ∙ sym (if_false (same e.key key) (some e.bucket) (find same key es) other))
          (λ t. ap (λ r. if same e.key key then some e.bucket else r) rest)

    pub find-erase-other :
        (k key : K) (es : List (Entry K))
        → same k key ≡ false
        → find same key (erase same k es) ≡ find same key es
    find-erase-other k key [] d = refl
    find-erase-other k key (e ∷ es) d =
        let rest = find-erase-other k key es d in
        if-cases (λ (xs : List (Entry K)). find same key xs ≡ find same key (e ∷ es)) (same e.key k)
          es (e ∷ erase same k es)
          (λ t.
            let other : same e.key key ≡ false = ap (λ x. same x key) (eq.sound e.key k t) ∙ d in
            sym (if_false (same e.key key) (some e.bucket) (find same key es) other))
          (λ t. ap (λ r. if same e.key key then some e.bucket else r) rest)

  module _ (same : K → K → Bool) where
    -- A bucket that passes the test stays, and is found.
    pub find-keep_if :
        (test : Entry K → Bool) (key : K) (b : Bucket) (es : List (Entry K))
        → ((e : Entry K) → e.bucket ≡ b → test e ≡ true)
        → find same key es ≡ some b
        → find same key (keep_if test es) ≡ some b
    find-keep_if test key b [] k h = cc
    find-keep_if test key b (e ∷ es) k h =
        let rest = keep_if test es in
        let there = λ (m : same e.key key ≡ false).
          find-keep_if test key b es k
            (sym (if_false (same e.key key) (some e.bucket) (find same key es) m) ∙ h) in
        let here : find same key (e ∷ rest) ≡ some b =
          if-cases (λ (o : Option Bucket). o ≡ some b) (same e.key key) (some e.bucket)
            (find same key rest)
            (λ m. sym (if_true (same e.key key) (some e.bucket) (find same key es) m) ∙ h) there in
        if-cases (λ (xs : List (Entry K)). find same key xs ≡ some b) (test e) (e ∷ rest) rest
          (λ t. here)
          (λ t. elim (Bool-cases (same e.key key)) [
            | inl m ↦
                let own : some e.bucket ≡ some b =
                  sym (if_true (same e.key key) (some e.bucket) (find same key es) m) ∙ h in
                let passes : test e ≡ true = k e (let q : e.bucket ≡ b = cc in q) in cc
            | inr m ↦ there m
          ])
