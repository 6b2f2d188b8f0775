-- ===== src/Quotax/Others.antt =====
-- quotax/quotax.go: operations on one key, and the bucket of another.
use urx.Base.{
  ℕ, ◌+◌, ◌-◌, ◌≡◌, refl, ap, ◌∙◌, Bool, false, Option, none, some, ◌∷◌, if◌then◌else◌, if-intro,
  if_false, ltb, leb, ◌==◌, IsEquality,
}
use urx.Base.Int.{ℤ}
use urx.Ratex.Bucket.{allow_n}
use urx.Quotax.Table.{Bucket, find}
use urx.Quotax.Tables.{find-replace-other, find-erase-other}
use urx.Quotax.Quota.{
  Quota, reserve_key, invoke_on_max_keys, created, write, get_or_create_at, check, pinned_at,
  count_refusal, unpin_at, remove_at, touched, new_bucket,
}
use urx.Quotax.Gates.{record_ok-keeps, count_refusal-keeps}

module _ {ℓ} {K : Type ℓ} where
  reserved-find :
      (same : K → K → Bool) (now pins : ℕ) (k key : K) (q : Quota K)
      → same k key ≡ false
      → find same key (created now pins k q (reserve_key q)).0.entries ≡ find same key q.entries
  unfolding reserve_key invoke_on_max_keys
  reserved-find same now pins k key q d =
      let P = λ (o : Option (Quota K)).
        find same key (created now pins k q o).0.entries ≡ find same key q.entries in
      let counted = record q { key_count = q.key_count + 1 } in
      let new : P (some counted) =
        if_false (same k key) (some (new_bucket now pins q.cfg)) (find same key q.entries) d in
      let refused : P none =
        if-intro (λ (x : Quota K). find same key x.entries ≡ find same key q.entries)
          q.cfg.on_max_keys (record q { on_max_keys_calls = k ∷ q.on_max_keys_calls }) q refl
          refl in
      if-intro P (q.cfg.max_keys == 0) (some counted)
        (if leb q.cfg.max_keys q.key_count then none else some counted) new
        (if-intro P (leb q.cfg.max_keys q.key_count) none (some counted) refused new)

  -- The operations on another key.
  module _ (same : K → K → Bool) (eq : IsEquality same) (k key : K) (d : same k key ≡ false) where
    pub get_or_create_at-other :
        (now : ℕ) (o : Option Bucket) (q : Quota K)
        → find same key (get_or_create_at same now k o q).0.entries ≡ find same key q.entries
    get_or_create_at-other now none q = reserved-find same now 0 k key q d
    get_or_create_at-other now (some b) q =
        find-replace-other same eq k key (touched same now b) q.entries d

    pub check-other :
        (now : ℕ) (n : ℤ) (x : Quota K × Option Bucket)
        → find same key (check same now n k x).0.entries ≡ find same key x.0.entries
    check-other now n (q, none) = refl
    check-other now n (q, some b) =
        let (l, ok) = allow_n now n b.limiter in
        let b' = record b { limiter = l } in
        ap (find same key) (record_ok-keeps ok (write same k b' q)).0
        ∙ find-replace-other same eq k key b' q.entries d

    pub pinned_at-other :
        (now : ℕ) (o : Option Bucket) (q : Quota K)
        → find same key (count_refusal same (pinned_at same now k o q)).0.entries
          ≡ find same key q.entries
    pinned_at-other now none q =
        ap (find same key) (count_refusal-keeps same (created now 1 k q (reserve_key q))).0
        ∙ reserved-find same now 1 k key q d
    pinned_at-other now (some b) q =
        find-replace-other same eq k key (record b { pins = b.pins + 1; last_access = now })
          q.entries d

    pub unpin_at-other :
        (o : Option Bucket) (q : Quota K)
        → find same key (unpin_at same k o q).entries ≡ find same key q.entries
    unpin_at-other none q = refl
    unpin_at-other (some b) q =
        find-replace-other same eq k key (record b { pins = b.pins - 1 }) q.entries d

    pub remove_at-other :
        (o : Option Bucket) (q : Quota K)
        → find same key (remove_at same k o q).0.entries ≡ find same key q.entries
    remove_at-other none q = refl
    remove_at-other (some b) q =
        if-intro (λ (x : Quota K × Bool). find same key x.0.entries ≡ find same key q.entries)
          (ltb 0 b.pins) (q, false) _ refl (find-erase-other same eq k key q.entries d)
