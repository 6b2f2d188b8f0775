-- ===== src/Quotax/Shards.antt =====
-- quotax/quotax.go: what `Reset` has counted when it goes from one shard to the next.
use urx.Base.{
  ℕ, zero, suc, ◌+◌, ◌≤◌, ◌<◌, ◌≡◌, refl, ap, ◌∙◌, ◌&&◌, ◌||◌, not, List, [], ◌∷◌, arith, length,
  count_if, leb, ◌==◌,
}
use native.Mathlib.Nat.{mod-lt}
use urx.Quotax.Table.{Entry, keep_if}
use urx.Quotax.Quota.{Quota, shard_for, is_pinned, reset_shard, reset_shards}

module _ {ℓ} {K : Type ℓ} (hash : K → ℕ) where
  -- What `Reset` has counted and what stands in the shards that are still to come.
  abbrev pub to_come : ℕ → Quota K → ℕ
  to_come i q = count_if (λ e. leb i (shard_for hash q e)) q.entries

  reset_shard-count :
      (i : ℕ) (q : Quota K) (es : List (Entry K))
      → let later =
          λ (k : ℕ) (xs : List (Entry K)). count_if (λ e. leb k (shard_for hash q e)) xs in
        let kept = keep_if (λ e. not (shard_for hash q e == i) || is_pinned hash e) es in
        (later i es + length kept
          ≡ length es
            + count_if (λ e. (shard_for hash q e == i) && is_pinned hash e) es
            + later (i + 1) kept)
        × (length kept ≤ length es)
  reset_shard-count i q [] = (omega arith, omega arith)
  reset_shard-count i q (e ∷ es) =
      let (r, l) = reset_shard-count i q es in (ground (arith, r), ground (arith, l))

  -- The count goes on from one shard to the next.
  reset_shard-balance :
      (i : ℕ) (q : Quota K) (remaining : ℕ)
      → remaining + to_come i q ≡ length q.entries
      → let (q', remaining') = reset_shard hash i (q, remaining) in
        (remaining' + to_come (i + 1) q' ≡ length q'.entries)
        × (length q'.entries ≤ length q.entries)
        × (q'.cfg ≡ q.cfg)
  unfolding reset_shard
  reset_shard-balance i q remaining h =
      let (e, l) = reset_shard-count i q q.entries in (omega (arith, e, h), l, refl)

  pub reset_shards-balance :
      (i k : ℕ) (q : Quota K) (remaining : ℕ)
      → remaining + to_come i q ≡ length q.entries
      → let (q', remaining') = reset_shards hash i k (q, remaining) in
        (remaining' + to_come (i + k) q' ≡ length q'.entries)
        × (length q'.entries ≤ length q.entries)
        × (q'.cfg ≡ q.cfg)
  unfolding reset_shards
  reset_shards-balance i zero q remaining h = (
    ap (λ j. remaining + to_come j q) (let e : i + 0 ≡ i = omega arith in e) ∙ h,
    omega arith,
    refl,
  )
  reset_shards-balance i (suc k) q remaining h =
      let (q1, r1) = reset_shard hash i (q, remaining) in
      let (e, l, c) = reset_shard-balance i q remaining h in
      let (e', l', c') = reset_shards-balance (i + 1) k q1 r1 e in
      let (q2, r2) = reset_shards hash (i + 1) k (q1, r1) in
      (
        ap (λ j. r2 + to_come j q2) (let d : i + suc k ≡ i + 1 + k = omega arith in d) ∙ e',
        omega (arith, l, l'),
        c' ∙ c,
      )

  pub all_to_come :
      (q : Quota K) (es : List (Entry K))
      → count_if (λ e. leb 0 (shard_for hash q e)) es ≡ length es
  all_to_come q [] = refl
  all_to_come q (e ∷ es) = ground (arith, all_to_come q es)

  pub none_to_come :
      (q : Quota K) (es : List (Entry K))
      → 0 < q.cfg.shards
      → count_if (λ e. leb q.cfg.shards (shard_for hash q e)) es ≡ 0
  none_to_come q [] h = refl
  none_to_come q (e ∷ es) h =
      let less = mod-lt (hash e.key) h in ground (arith, none_to_come q es h, less)
