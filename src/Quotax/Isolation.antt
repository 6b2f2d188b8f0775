-- ===== src/Quotax/Isolation.antt =====
-- quotax/quotax.go over ratex/ratex.go: the requests of one key.
use urx.Base.{
  ℕ, ◌+◌, ◌≡◌, refl, sym, ap, subst, ◌∙◌, Bool, false, Option, none, some, List, [], ◌∷◌,
  if◌then◌else◌, if_true, if_false, if-cong, ◌==◌, IsEquality,
}
use urx.Base.Int.{ℤ}
use urx.Ratex.Types.{Limiter}
use urx.Ratex.Bucket.{allow_n}
use urx.Ratex.Bucket
use urx.Quotax.Gates.{record_ok-keeps}
use urx.Quotax.Config.{Config, limiter_options}
use urx.Quotax.Table.{Bucket, Entry, find}
use urx.Quotax.Tables.{find-replace-same, find-replace-other}
use urx.Quotax.Quota.{
  Quota, new_bucket, reserve_key, created, write, touched, get_or_create, get_or_create_at, check,
  quota_allow_n,
}

pub record Request {ℓ} (K : Type ℓ) : Type ℓ where
  pub now : ℕ
  pub n : ℤ
  pub key : K

abbrev pub limiter_of : Option Bucket → Option Limiter
limiter_of none = none
limiter_of (some b) = some b.limiter

abbrev pub or_new : ℕ → Config → Option Limiter → Limiter
or_new now c none = Bucket.new now (limiter_options c)
or_new now c (some l) = l

module _ {ℓ} {K : Type ℓ} where
  module _ (same : K → K → Bool) where
    unfoldable pub serve : List (Request K) → Quota K → Quota K × List Bool
    unfolding quota_allow_n
    serve [] q = (q, [])
    serve (r ∷ rs) q =
        let (q', ok) = quota_allow_n same r.now r.n r.key q in
        let (q'', oks) = serve rs q' in (q'', ok ∷ oks)

    -- The answers to the requests of one key.
    abbrev pub answers_of : K → List (Request K) → List Bool → List Bool
    answers_of key [] oks = []
    answers_of key (r ∷ rs) [] = []
    answers_of key (r ∷ rs) (ok ∷ oks) =
        let rest = answers_of key rs oks in if same r.key key then ok ∷ rest else rest

    -- The answers of one limiter, that is made for the first request, to the requests of one key.
    abbrev pub solo : Config → K → List (Request K) → Option Limiter → List Bool
    solo c key [] o = []
    solo c key (r ∷ rs) o =
        let (l, ok) = allow_n r.now r.n (or_new r.now c o) in
        let mine = solo c key rs (some l) in
        let theirs = solo c key rs o in if same r.key key then ok ∷ mine else theirs

  module _ (same : K → K → Bool) (eq : IsEquality same) where
    reserve_key-unlimited :
        (q : Quota K)
        → q.cfg.max_keys ≡ 0
        → reserve_key q ≡ some (record q { key_count = q.key_count + 1 })
    unfolding reserve_key
    reserve_key-unlimited q m =
        if_true (q.cfg.max_keys == 0) (some (record q { key_count = q.key_count + 1 })) _
          (ap (λ n. n == 0) m)

    -- What one request does: for its own key and for another one.
    record Serves (now : ℕ) (n : ℤ) (k : K) (o : Option Bucket) (q : Quota K) (x : Quota K × Bool)
        : Type ℓ where
      answer : x.1 ≡ (allow_n now n (or_new now q.cfg (limiter_of o))).1
      own :
          limiter_of (find same k x.0.entries)
          ≡ some (allow_n now n (or_new now q.cfg (limiter_of o))).0
      others : (key : K) → same k key ≡ false → find same key x.0.entries ≡ find same key q.entries
      cfg : x.0.cfg ≡ q.cfg
      open_still : x.0.is_shut ≡ q.is_shut

    -- The check of a bucket that stands in the table of `q'`, which has the other keys of `q`.
    check-Serves :
        (now : ℕ) (n : ℤ) (k : K) (o : Option Bucket) (b b0 : Bucket) (q q' : Quota K)
        → find same k q'.entries ≡ some b0
        → b.limiter ≡ or_new now q.cfg (limiter_of o)
        → ((key : K) → same k key ≡ false → find same key q'.entries ≡ find same key q.entries)
        → q'.cfg ≡ q.cfg
        → q'.is_shut ≡ q.is_shut
        → Serves now n k o q (check same now n k (q', some b))
    check-Serves now n k o b b0 q q' f l others c s =
        let (l', ok) = allow_n now n b.limiter in
        let b' = record b { limiter = l' } in
        let (es, shut, cfg) = record_ok-keeps ok (write same k b' q') in
        record {
          answer = ap (λ x. (allow_n now n x).1) l;
          own =
              ap (λ x. limiter_of (find same k x)) es
              ∙ ap limiter_of (find-replace-same same eq k b0 b' q'.entries f)
              ∙ ap (λ x. some (allow_n now n x).0) l;
          others = λ key d.
              ap (find same key) es
              ∙ find-replace-other same eq k key b' q'.entries d
              ∙ others key d;
          cfg = cfg ∙ c;
          open_still = shut ∙ s;
        }

    served-Serves :
        (now : ℕ) (n : ℤ) (k : K) (o : Option Bucket) (q : Quota K)
        → q.cfg.max_keys ≡ 0
        → find same k q.entries ≡ o
        → Serves now n k o q (check same now n k (get_or_create_at same now k o q))
    served-Serves now n k (some b) q m f =
        let b1 = touched same now b in
        check-Serves now n k (some b) b1 b1 q (write same k b1 q)
          (find-replace-same same eq k b b1 q.entries f) refl
          (λ key d. find-replace-other same eq k key b1 q.entries d) refl refl
    served-Serves now n k none q m f =
        let b1 = new_bucket now 0 q.cfg in
        let first : Entry K = record { key = k; bucket = b1 } in
        let q' = record q { key_count = q.key_count + 1; entries = first ∷ q.entries } in
        subst (λ x. Serves now n k none q (check same now n k (created now 0 k q x)))
          (sym (reserve_key-unlimited q m))
          (check-Serves now n k none b1 b1 q q'
            (if_true (same k k) (some b1) (find same k q.entries) (eq.reflexive k)) refl
            (λ key d. if_false (same k key) (some b1) (find same key q.entries) d) refl refl)

    quota_allow_n-Serves :
        (now : ℕ) (n : ℤ) (k : K) (q : Quota K)
        → q.cfg.max_keys ≡ 0
        → q.is_shut ≡ false
        → Serves now n k (find same k q.entries) q (quota_allow_n same now n k q)
    unfolding quota_allow_n get_or_create
    quota_allow_n-Serves now n k q m s =
        subst (Serves now n k (find same k q.entries) q)
          (sym (if_false q.is_shut (q, false) (check same now n k (get_or_create same now k q)) s))
          (served-Serves now n k (find same k q.entries) q m refl)

    -- On an open quota without a maximum of keys, and where no bucket is evicted, removed or reset: the
    -- answers that the requests of a key get, whatever requests of other keys stand in between, are
    -- those of a ratex limiter of its own, with the quota's rate and burst, that is made for the
    -- first of them.
    pub serve-solo :
        (rs : List (Request K)) (key : K) (q : Quota K)
        → q.cfg.max_keys ≡ 0
        → q.is_shut ≡ false
        → answers_of same key rs (serve same rs q).1
          ≡ solo same q.cfg key rs (limiter_of (find same key q.entries))
    unfolding serve
    serve-solo [] key q m s = refl
    serve-solo (r ∷ rs) key q m s =
        let x = quota_allow_n same r.now r.n r.key q in
        let v = quota_allow_n-Serves r.now r.n r.key q m s in
        let rest = serve-solo rs key x.0 (ap (λ c. c.max_keys) v.cfg ∙ m) (v.open_still ∙ s) in
        let later = answers_of same key rs (serve same rs x.0).1 in
        let before = limiter_of (find same key q.entries) in
        let own_limiter = or_new r.now q.cfg before in
        let after = limiter_of (find same key x.0.entries) in
        let tail : later ≡ solo same q.cfg key rs after =
          rest ∙ ap (λ c. solo same c key rs after) v.cfg in
        if-cong (same r.key key)
          (λ t.
            let (answer, own) =
              subst
                (λ k.
                  let o = or_new r.now q.cfg (limiter_of (find same k q.entries)) in
                  (x.1 ≡ (allow_n r.now r.n o).1)
                  × (limiter_of (find same k x.0.entries) ≡ some (allow_n r.now r.n o).0))
                (eq.sound r.key key t) (v.answer, v.own) in
            ap (λ b. b ∷ later) answer
            ∙ ap (λ bs. (allow_n r.now r.n own_limiter).1 ∷ bs)
                (tail ∙ ap (solo same q.cfg key rs) own))
          (λ f. tail ∙ ap (λ o. solo same q.cfg key rs (limiter_of o)) (v.others key f))
