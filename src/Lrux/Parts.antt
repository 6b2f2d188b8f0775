-- ===== src/Lrux/Parts.antt =====
-- lrux/compute.go: the parts of `GetOrCompute`, each of which is under the lock or one atomic
-- operation; the operations of others, and those of the compute function, run between them.
use urx.Base.{ℕ, Bool}
use urx.Base.Int.{ℤ}
use urx.Lrux.Types.{Cache, count_hit, count_miss}
use urx.Lrux.Cache.{find, peek_promote}
use urx.Lrux.Compute.{Clock, convert_miss_to_hit, store}

-- A look for the key, with its times; a hit or a miss counted; a miss made a hit; the last look, with
-- the insertion.
pub data Part {κ} (V : Type κ) : Type κ where
  promotes : ℕ → ℕ → Part V
  counts_hit counts_miss converts : Part V
  stores : Clock → V → ℤ → Part V

module _ {ℓ κ} {K : Type ℓ} {V : Type κ} (same : K → K → Bool) where
  unfoldable pub part_step : K → Part V → Cache K V → Cache K V
  unfolding peek_promote convert_miss_to_hit store
  part_step key (promotes checked now) c = (peek_promote same checked now key c).0
  part_step key counts_hit c = count_hit c
  part_step key counts_miss c = count_miss c
  part_step key converts c = convert_miss_to_hit c
  part_step key (stores t value ttl) c =
      (store same value t key value ttl (find same key c.nodes) c).0
