-- ===== src/Quotax/Table.antt =====
-- quotax/quotax.go: the shards' maps from keys to buckets, as one list of entries; the shard of a key
-- is a function of it. `same` is the equality of the keys.
use urx.Base.{ℕ, Bool, Option, none, some, List, [], ◌∷◌, if◌then◌else◌}
use urx.Ratex.Types.{Limiter}

pub record Bucket : Type 0 where
  pub limiter : Limiter
  pub last_access : ℕ
  pub pins : ℕ

pub record Entry {ℓ} (K : Type ℓ) : Type ℓ where
  pub key : K
  pub bucket : Bucket

module _ {ℓ} {K : Type ℓ} where
  -- The entries that pass a test.
  abbrev pub keep_if : (Entry K → Bool) → List (Entry K) → List (Entry K)
  keep_if test [] = []
  keep_if test (e ∷ es) = let rest = keep_if test es in if test e then e ∷ rest else rest

  module _ (same : K → K → Bool) where
    abbrev pub find : K → List (Entry K) → Option Bucket
    find key [] = none
    find key (e ∷ es) = let rest = find key es in if same e.key key then some e.bucket else rest

    -- A write to a bucket that the map has.
    abbrev pub replace : K → Bucket → List (Entry K) → List (Entry K)
    replace key b [] = []
    replace key b (e ∷ es) =
        let rest = replace key b es in
        if same e.key key then record e { bucket = b } ∷ es else e ∷ rest

    abbrev pub erase : K → List (Entry K) → List (Entry K)
    erase key [] = []
    erase key (e ∷ es) = let rest = erase key es in if same e.key key then es else e ∷ rest
