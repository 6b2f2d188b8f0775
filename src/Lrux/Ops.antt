-- ===== src/Lrux/Ops.antt =====
-- lrux/lrux.go and compute.go: the cache's operations as data, and sequences of them.
use urx.Base.{◌≤◌, ℕ, Bool, List, [], ◌∷◌}
use urx.Base.Int.{ℤ}
use urx.Lrux.Types.{Cache}
use urx.Lrux.Cache.{resize, set_with_ttl, get, get_fast, touch, delete}
use urx.Lrux.Parts.{Part, promotes, stores, part_step}
use urx.Lrux.Sweeps.{sweep, range, clear, close, reset_stats, set_multi, delete_multi}

-- The operations that change the cache, with the clock's readings.
pub data CacheOp {ℓ κ} (K : Type ℓ) (V : Type κ) : Type (ℓ ⊔ κ) where
  op_set : ℕ → K → V → ℤ → CacheOp K V
  op_get : ℕ → ℕ → K → CacheOp K V
  op_get_fast : ℕ → K → CacheOp K V
  op_touch : ℕ → ℕ → K → CacheOp K V
  op_delete : K → CacheOp K V
  op_delete_multi : List K → CacheOp K V
  op_set_multi : ℕ → List (K × V) → CacheOp K V
  op_resize : ℤ → CacheOp K V
  op_sweep : (ℕ → ℕ) → CacheOp K V
  op_range : (K → V → Bool) → (ℕ → ℕ) → CacheOp K V
  -- a part of `GetOrCompute` for a key
  op_part : K → Part V → CacheOp K V
  op_clear op_close op_reset_stats : CacheOp K V

module _ {ℓ κ} {K : Type ℓ} {V : Type κ} (same : K → K → Bool) where
  unfoldable pub step : CacheOp K V → Cache K V → Cache K V
  step (op_set now key value ttl) c = set_with_ttl same now key value ttl c
  step (op_get checked now key) c = (get same checked now key c).0
  step (op_get_fast checked key) c = (get_fast same checked key c).0
  step (op_touch checked now key) c = (touch same checked now key c).0
  step (op_delete key) c = (delete same key c).0
  step (op_delete_multi ks) c = (delete_multi same ks c).0
  step (op_set_multi now items) c = set_multi same now items c
  step (op_resize capacity) c = resize capacity c
  step (op_sweep clock) c = sweep clock c
  step (op_range fn clock) c = (range fn clock c).0
  step (op_part key part) c = part_step same key part c
  step op_clear c = clear c
  step op_close c = close c
  step op_reset_stats c = reset_stats c

  abbrev pub run : List (CacheOp K V) → Cache K V → Cache K V
  run [] c = c
  run (op ∷ ops) c = run ops (step op c)

-- The time at which an operation marks a node as accessed, if it may; else the time before.
abbrev pub access_time {ℓ κ} : {K : Type ℓ} {V : Type κ} → CacheOp K V → ℕ → ℕ
access_time (op_set now key value ttl) before = now
access_time (op_get checked now key) before = now
access_time (op_part key (promotes checked now)) before = now
access_time (op_part key (stores t value ttl)) before = t.inserted
access_time (op_touch checked now key) before = now
access_time (op_set_multi now items) before = now
access_time _ before = before

module _ {ℓ κ} {K : Type ℓ} {V : Type κ} where
  -- Operations in the order of their times of access, from `before` on, and the last such time.
  abbrev pub InOrder : ℕ → List (CacheOp K V) → Type 0
  InOrder before [] = Unit
  InOrder before (op ∷ ops) = (before ≤ access_time op before) × InOrder (access_time op before) ops

  abbrev pub last_access : ℕ → List (CacheOp K V) → ℕ
  last_access before [] = before
  last_access before (op ∷ ops) = last_access (access_time op before) ops
