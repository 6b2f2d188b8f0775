-- ===== src/Quotax/Returns.antt =====
-- quotax/quotax.go: the pins of a blocking call, from its first look to its return.
use urx.Base.{
  ℕ, ◌+◌, ◌-◌, ◌<◌, ◌≡◌, refl, ap, subst, ◌∙◌, Bool, false, Option, none, some, List, ◌∷◌, arith,
  if◌then◌else◌, if-intro, if_true, ltb, leb, ◌==◌, IsEquality, All,
}
use urx.Base.Errors.{Error}
use urx.Base.Int.{ℤ}
use urx.Ratex.Bucket.{at_least_one}
use urx.Quotax.Table.{Bucket, find}
use urx.Quotax.Quota.{
  Quota, reserve_key, invoke_on_max_keys, created, bucket_for_wait, pinned_at, count_refusal, unpin,
  unpin_at, new_bucket,
}
use urx.Quotax.Waits.{
  Round, Admission, still_waiting, admitted, turned_away, looked, wait_loop, pin_at, unpinned,
  wait_for_on_bucket, wait_with, wait_for,
}
use urx.Quotax.Balance.{pins_of, pins_at, Leaves, Fair, record_ok-pins, write-pins, wait_loop-pins}

module _ {ℓ} {K : Type ℓ} (same : K → K → Bool) where
  module _ (eq : IsEquality same) where
    unpin_at-pins :
        (key : K) (o : Option Bucket) (q : Quota K)
        → find same key q.entries ≡ o
        → pins_at same key (unpin_at same key o q) ≡ pins_of o - 1
    unpin_at-pins key none q f = ap pins_of f
    unpin_at-pins key (some b) q f = write-pins same eq key b (record b { pins = b.pins - 1 }) q f

    pub unpin-pins :
        (key : K) (q : Quota K) → pins_at same key (unpin same key q) ≡ pins_at same key q - 1
    unfolding unpin
    unpin-pins key q = unpin_at-pins key (find same key q.entries) q refl

    module _ (hash : K → ℕ) (key : K) where
      pin_at-pins :
          (o : Option Bucket) (q : Quota K)
          → find same key q.entries ≡ o
          → 0 < pins_of o
          → pins_at same key (pin_at same hash key o q) ≡ pins_of o + 1
      pin_at-pins none q f p = absurd (omega (arith, p))
      pin_at-pins (some b) q f p = write-pins same eq key b (record b { pins = b.pins + 1 }) q f

      unpinned-Leaves :
          (p : ℕ) (x : Quota K × Admission)
          → pins_at same key x.0 ≡ p + 1
          → Leaves same key p (unpinned same hash key x)
      unpinned-Leaves p (q, still_waiting) h = tt
      unpinned-Leaves p (q, admitted remaining waited) h =
          let e = unpin-pins key q in omega (arith, e, h)
      unpinned-Leaves p (q, turned_away err) h = let e = unpin-pins key q in omega (arith, e, h)

      -- The looks before the loop.
      looked-pins :
          (look : Option Error) (x : Quota K × Admission) (q : Quota K)
          → pins_at same key x.0 ≡ pins_at same key q
          → pins_at same key (looked look x q).0 ≡ pins_at same key q
      looked-pins none x q h = h
      looked-pins (some cause) x q h = record_ok-pins same false key q

      pub wait_for_on_bucket-Leaves :
          (n : ℤ) (look : Option Error) (rs : List (Round K)) (q : Quota K)
          → 0 < pins_at same key q
          → All (Fair same hash key) rs
          → Leaves same key (pins_at same key q) (wait_for_on_bucket same hash n look key rs q)
      unfolding wait_for_on_bucket
      wait_for_on_bucket-Leaves n look rs q p fair =
          let q' = pin_at same hash key (find same key q.entries) q in
          let up = pin_at-pins (find same key q.entries) q refl p in
          let looped = wait_loop same hash (at_least_one n) false key rs q' in
          let kept =
            wait_loop-pins same eq hash key (at_least_one n) false rs q' (omega (arith, up)) fair in
          if-intro (Leaves same key (pins_at same key q)) (ltb q.cfg.burst (at_least_one n)) _ _
            (record_ok-pins same false key q)
            (unpinned-Leaves (pins_at same key q) _ (
              if-intro (λ (x : Quota K × Admission). pins_at same key x.0 ≡ pins_at same key q + 1)
                q.is_shut _ _ up (looked-pins look looped q' kept ∙ up)))

      -- What a call finds that gets its bucket, pinned, or none.
      abbrev Got : ℕ → Quota K × Option Bucket → Type 0
      Got p (q, none) = pins_at same key q ≡ p
      Got p (q, some b) = pins_at same key q ≡ p + 1

      count_refusal-Got :
          (p : ℕ) (x : Quota K × Option Bucket) → Got p x → Got p (count_refusal same x)
      count_refusal-Got p (q, none) h = record_ok-pins same false key q ∙ h
      count_refusal-Got p (q, some b) h = h

      created-Got :
          (now : ℕ) (q : Quota K)
          → pins_at same key q ≡ 0
          → Got 0 (created now 1 key q (reserve_key q))
      unfolding reserve_key invoke_on_max_keys
      created-Got now q h =
          let P = λ (o : Option (Quota K)). Got 0 (created now 1 key q o) in
          let counted = record q { key_count = q.key_count + 1 } in
          let new : P (some counted) = ap pins_of (
            if_true (same key key) (some (new_bucket now 1 q.cfg)) (find same key q.entries)
              (eq.reflexive key)) in
          let refused : P none =
            if-intro (λ (x : Quota K). pins_at same key x ≡ 0) q.cfg.on_max_keys
              (record q { on_max_keys_calls = key ∷ q.on_max_keys_calls }) q h h in
          if-intro P (q.cfg.max_keys == 0) (some counted)
            (if leb q.cfg.max_keys q.key_count then none else some counted) new
            (if-intro P (leb q.cfg.max_keys q.key_count) none (some counted) refused new)

      pinned_at-Got :
          (now : ℕ) (o : Option Bucket) (q : Quota K)
          → find same key q.entries ≡ o
          → Got (pins_of o) (pinned_at same now key o q)
      pinned_at-Got now none q f = created-Got now q (ap pins_of f)
      pinned_at-Got now (some b) q f =
          write-pins same eq key b (record b { pins = b.pins + 1; last_access = now }) q f

      pub bucket_for_wait-Got :
          (now : ℕ) (q : Quota K) → Got (pins_at same key q) (bucket_for_wait same now key q)
      unfolding bucket_for_wait
      bucket_for_wait-Got now q =
          let o = find same key q.entries in
          count_refusal-Got (pins_of o) (pinned_at same now key o q) (pinned_at-Got now o q refl)

      left-Leaves :
          (p : ℕ) (x : Quota K × Admission)
          → Leaves same key (p + 1) x
          → Leaves same key p (unpinned same hash key x)
      left-Leaves p (q, still_waiting) h = tt
      left-Leaves p (q, admitted remaining waited) h =
          unpinned-Leaves p (q, admitted remaining waited) h
      left-Leaves p (q, turned_away err) h = unpinned-Leaves p (q, turned_away err) h

      wait_with-Leaves :
          (n : ℤ) (look : Option Error) (rs : List (Round K)) (p : ℕ) (x : Quota K × Option Bucket)
          → Got p x
          → All (Fair same hash key) rs
          → Leaves same key p (wait_with same hash n look key rs x)
      wait_with-Leaves n look rs p (q, none) g fair = g
      wait_with-Leaves n look rs p (q, some b) g fair =
          left-Leaves p (wait_for_on_bucket same hash n look key rs q) (
            subst (λ k. Leaves same key k (wait_for_on_bucket same hash n look key rs q)) g
              (wait_for_on_bucket-Leaves n look rs q (omega (arith, g)) fair))

      looked-Leaves :
          (look : Option Error) (p : ℕ) (x : Quota K × Admission) (q : Quota K)
          → pins_at same key q ≡ p
          → Leaves same key p x
          → Leaves same key p (looked look x q)
      looked-Leaves none p x q h l = l
      looked-Leaves (some cause) p x q h l = record_ok-pins same false key q ∙ h

      -- `WaitN` in all its ends, of a key that has a bucket or none, with whatever others do while it
      -- sleeps that leaves the number of pins of a pinned key as it is: a call that has come back,
      -- admitted, cancelled, closed or refused for the burst or the maximum of keys, leaves as many
      -- pins on its key as it found.
      pub wait_for-pins :
          (now : ℕ) (n : ℤ) (first look : Option Error) (rs : List (Round K)) (q : Quota K)
          → All (Fair same hash key) rs
          → Leaves same key (pins_at same key q) (wait_for same hash now n first look key rs q)
      unfolding wait_for
      wait_for-pins now n first look rs q fair =
          let p = pins_at same key q in
          if-intro (Leaves same key p) (ltb q.cfg.burst (at_least_one n)) _ _
            (record_ok-pins same false key q)
            (if-intro (Leaves same key p) q.is_shut _ _ refl (
              looked-Leaves first p
                (wait_with same hash n look key rs (bucket_for_wait same now key q)) q refl
                (wait_with-Leaves n look rs p (bucket_for_wait same now key q)
                  (bucket_for_wait-Got now q) fair)))
