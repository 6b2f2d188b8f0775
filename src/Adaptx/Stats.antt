-- ===== src/Adaptx/Stats.antt =====
-- adaptx/adaptx.go: `Stats`. `slices.SortFunc` is an insertion sort, and the ranks of the percentiles
-- are exact fractions of a hundred. A latency is a number of nanoseconds.
use urx.Base.{
  ℕ, zero, suc, ◌+◌, ◌-◌, ◌*◌, ◌/◌, ◌%◌, String, Option, none, some, List, [], ◌∷◌, length,
  get_elem?, if◌then◌else◌, ltb, leb,
}
use urx.Adaptx.Config.{Algorithm_string}
use urx.Adaptx.Types.{Sample, Ring, Limiter}

pub record Stats : Type 0 where
  pub algorithm : String
  pub limit : ℕ
  pub min_limit : ℕ
  pub max_limit : ℕ
  pub in_flight : ℕ
  pub total : ℕ
  pub success : ℕ
  pub failures : ℕ
  pub rejected : ℕ
  pub increases : ℕ
  pub decreases : ℕ
  pub avg_lat : ℕ
  pub min_lat : ℕ
  pub max_lat : ℕ
  pub p50_lat : ℕ
  pub p99_lat : ℕ

-- The place of the sample with the number `i`, the oldest first.
abbrev pub place : Ring → ℕ → ℕ
place r i = (r.head + r.ring_cap + i - r.count) % r.ring_cap

-- `k` samples from number `i` on.
unfoldable pub read_from : Ring → ℕ → ℕ → List (Option Sample)
read_from r i zero = []
read_from r i (suc k) = get_elem? r.samples (place r i) ∷ read_from r (i + 1) k

unfoldable pub read_ring : Ring → List (Option Sample)
unfolding read_from
read_ring r = read_from r 0 r.count

-- The latencies of the samples after the cutoff, `now` less the window.
unfoldable pub latencies : ℕ → ℕ → List (Option Sample) → List ℕ
latencies now window [] = []
latencies now window (none ∷ ss) = latencies now window ss
latencies now window (some s ∷ ss) =
    let rest = latencies now window ss in if ltb now (s.ts + window) then s.latency ∷ rest else rest

-- The sum, the minimum and the maximum so far.
unfoldable pub scan : List ℕ → ℕ → ℕ → ℕ → ℕ × ℕ × ℕ
scan [] total low high = (total, low, high)
scan (d ∷ ds) total low high =
    scan ds (total + d) (if ltb d low then d else low) (if ltb high d then d else high)

unfoldable pub insert : ℕ → List ℕ → List ℕ
insert x [] = x ∷ []
insert x (y ∷ ys) = let rest = insert x ys in if leb x y then x ∷ y ∷ ys else y ∷ rest

unfoldable pub sort : List ℕ → List ℕ
unfolding insert
sort [] = []
sort (x ∷ xs) = insert x (sort xs)

abbrev pub or_zero : Option ℕ → ℕ
or_zero none = 0
or_zero (some n) = n

-- `lats[int(float64(len(lats)-1)*p)]` for `p` in hundredths.
unfoldable pub percentile : ℕ → List ℕ → ℕ
percentile p lats = or_zero (get_elem? lats ((length lats - 1) * p / 100))

pub record Summary : Type 0 where
  pub avg : ℕ
  pub low : ℕ
  pub high : ℕ
  pub q50 : ℕ
  pub q99 : ℕ

unfoldable pub summarize : List ℕ → Summary
unfolding scan sort percentile
summarize [] = record { avg = 0; low = 0; high = 0; q50 = 0; q99 = 0 }
summarize (d ∷ ds) =
    let (total, low, high) = scan (d ∷ ds) 0 d 0 in
    let sorted = sort (d ∷ ds) in
    record {
      avg = total / length (d ∷ ds);
      low = low;
      high = high;
      q50 = percentile 50 sorted;
      q99 = percentile 99 sorted;
    }

unfoldable pub stats : ℕ → Limiter → Stats
unfolding Algorithm_string read_ring latencies summarize
stats now l =
    let s = summarize (latencies now l.cfg.sample_window (read_ring l.ring)) in
    record {
      algorithm = Algorithm_string l.cfg.algorithm;
      limit = l.limit;
      min_limit = l.cfg.min_limit;
      max_limit = l.cfg.max_limit;
      in_flight = l.in_flight;
      total = l.counters.total;
      success = l.counters.success;
      failures = l.counters.fail;
      rejected = l.counters.rejected;
      increases = l.counters.incr;
      decreases = l.counters.decr;
      avg_lat = s.avg;
      min_lat = s.low;
      max_lat = s.high;
      p50_lat = s.q50;
      p99_lat = s.q99;
    }
