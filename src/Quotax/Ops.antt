-- ===== src/Quotax/Ops.antt =====
-- quotax/quotax.go: sequences of the methods, each as one step.
use urx.Base.{ℕ, Bool, List, [], ◌∷◌}
use urx.Base.Int.{ℤ}
use urx.Quotax.Quota.{
  Quota, quota_allow_n, bucket_for_wait, unpin, remove, reset, evict, close, reset_stats,
}

pub data QuotaOp {ℓ} (K : Type ℓ) : Type ℓ where
  op_allow : ℕ → ℤ → K → QuotaOp K
  -- a waiter takes its bucket, and leaves it
  op_pin : ℕ → K → QuotaOp K
  op_unpin op_remove : K → QuotaOp K
  op_reset op_close op_reset_stats : QuotaOp K
  op_evict : ℕ → QuotaOp K

module _ {ℓ} {K : Type ℓ} (same : K → K → Bool) (hash : K → ℕ) where
  unfoldable pub step : QuotaOp K → Quota K → Quota K
  unfolding quota_allow_n bucket_for_wait unpin remove reset evict close reset_stats
  step (op_allow now n key) q = (quota_allow_n same now n key q).0
  step (op_pin now key) q = (bucket_for_wait same now key q).0
  step (op_unpin key) q = unpin same key q
  step (op_remove key) q = (remove same key q).0
  step op_reset q = reset hash q
  step op_close q = close q
  step op_reset_stats q = reset_stats q
  step (op_evict now) q = evict hash now q

  abbrev pub run : List (QuotaOp K) → Quota K → Quota K
  run [] q = q
  run (op ∷ ops) q = run ops (step op q)
