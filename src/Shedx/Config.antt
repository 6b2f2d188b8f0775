-- ===== src/Shedx/Config.antt =====
-- shedx/types.go and options.go. A load, a threshold and a cutoff are fractions; those of a
-- configuration are counted in parts of one common `scale`, of which there are 20 for each grain, so
-- that the defaults (0.8, 0.25, 0.60, 0.90) are whole numbers of parts.
use urx.Base.{
  ◌≡◌, refl, ◌∙◌, ℕ, ◌*◌, ◌<◌, ◌≤◌, String, Bool, ◌&&◌, ◌||◌, not, Option, none, some, List, [],
  ◌∷◌, arith, if◌then◌else◌, is_empty, ltb, leb,
}
use urx.Base.Int.{ℤ, pos_part, set_if_pos}

-- `other` is a value outside the named constants.
pub data Priority : Type 0 where
  low normal high critical : Priority
  other : ℕ → Priority

pub record Config : Type 0 where
  pub capacity : ℕ
  pub scale : ℕ
  pub threshold : ℕ
  pub hysteresis : ℕ
  pub cutoff_low : ℕ
  pub cutoff_normal : ℕ
  pub cutoff_high : ℕ
  pub op : String

abbrev pub default_capacity : ℕ
default_capacity = 1000

abbrev pub default_threshold : ℕ → ℕ
default_threshold grain = 16 * grain

abbrev pub default_cutoff_low : ℕ → ℕ
default_cutoff_low grain = 5 * grain

abbrev pub default_cutoff_normal : ℕ → ℕ
default_cutoff_normal grain = 12 * grain

abbrev pub default_cutoff_high : ℕ → ℕ
default_cutoff_high grain = 18 * grain

pub data ShedOption : Type 0 where
  with_capacity : ℤ → ShedOption
  with_threshold : ℤ → ShedOption
  with_cutoffs : ℤ → ℤ → ℤ → ShedOption
  with_op : String → ShedOption
  with_hysteresis : ℤ → ShedOption

unfoldable pub apply : ShedOption → Config → Config
apply (with_capacity n) c = record c { capacity = set_if_pos n c.capacity }
apply (with_threshold t) c = record c {
  threshold = if ltb 0 (pos_part t) && leb (pos_part t) c.scale then pos_part t else c.threshold;
}
apply (with_cutoffs l n h) c = record c {
  cutoff_low = pos_part l;
  cutoff_normal = pos_part n;
  cutoff_high = pos_part h;
}
apply (with_op op) c = record c { op = if is_empty op then c.op else op }
apply (with_hysteresis delta) c = record c { hysteresis = set_if_pos delta c.hysteresis }

unfoldable pub apply_all : List (Option ShedOption) → Config → Config
unfolding apply
apply_all [] c = c
apply_all (none ∷ opts) c = apply_all opts c
apply_all (some opt ∷ opts) c = apply_all opts (apply opt c)

abbrev pub defaults : ℕ → Config
defaults grain = record {
  capacity = default_capacity;
  scale = 20 * grain;
  threshold = default_threshold grain;
  hysteresis = 0;
  cutoff_low = default_cutoff_low grain;
  cutoff_normal = default_cutoff_normal grain;
  cutoff_high = default_cutoff_high grain;
  op = "";
}

abbrev valid_cutoff : ℕ → ℕ → Bool
valid_cutoff scale v = ltb 0 v && leb v scale

abbrev default_cutoffs : ℕ → Config → Config
default_cutoffs grain c = record c {
  cutoff_low = default_cutoff_low grain;
  cutoff_normal = default_cutoff_normal grain;
  cutoff_high = default_cutoff_high grain;
}

unfoldable pub normalize_cutoffs : ℕ → Config → Config
normalize_cutoffs grain c =
    if not (valid_cutoff c.scale c.cutoff_low)
      || (not (valid_cutoff c.scale c.cutoff_normal) || not (valid_cutoff c.scale c.cutoff_high))
    then default_cutoffs grain c
    else (if ltb c.cutoff_normal c.cutoff_low || ltb c.cutoff_high c.cutoff_normal
        then default_cutoffs grain c
        else c)

abbrev floor_capacity : Config → Config
floor_capacity c = record c { capacity = if ltb c.capacity 1 then 1 else c.capacity }

abbrev valid_threshold : ℕ → Config → Config
valid_threshold grain c = record c {
  threshold =
      if leb c.threshold 0 || ltb c.scale c.threshold then default_threshold grain else c.threshold;
}

abbrev valid_hysteresis : Config → Config
valid_hysteresis c = record c {
  hysteresis = if leb c.hysteresis 0 || leb c.threshold c.hysteresis then 0 else c.hysteresis;
}

unfoldable pub new_config : ℕ → List (Option ShedOption) → Config
unfolding apply_all normalize_cutoffs
new_config grain opts =
    normalize_cutoffs grain
      (valid_hysteresis (valid_threshold grain (floor_capacity (apply_all opts (defaults grain)))))

-- What `admits` relies on.
pub record IsUsable (c : Config) : Type 0 where
  pub some_capacity : 0 < c.capacity
  pub some_threshold : 0 < c.threshold
  pub threshold_fits : c.threshold ≤ c.scale
  pub low_normal : c.cutoff_low ≤ c.cutoff_normal
  pub normal_high : c.cutoff_normal ≤ c.cutoff_high
  pub high_fits : c.cutoff_high ≤ c.scale

apply-scale : (opt : ShedOption) (c : Config) → (apply opt c).scale ≡ c.scale
unfolding apply
apply-scale (with_capacity n) c = refl
apply-scale (with_threshold t) c = refl
apply-scale (with_cutoffs l n h) c = refl
apply-scale (with_op op) c = refl
apply-scale (with_hysteresis delta) c = refl

-- Options leave the scale as it is.
apply_all-scale :
    (opts : List (Option ShedOption)) (c : Config) → (apply_all opts c).scale ≡ c.scale
unfolding apply_all
apply_all-scale [] c = refl
apply_all-scale (none ∷ opts) c = apply_all-scale opts c
apply_all-scale (some opt ∷ opts) c = apply_all-scale opts (apply opt c) ∙ apply-scale opt c

-- What is left to the cutoffs is a usable configuration.
normalize_cutoffs-IsUsable :
    (grain : ℕ) (c : Config)
    → 0 < c.capacity
    → 0 < c.threshold
    → c.threshold ≤ c.scale
    → c.scale ≡ 20 * grain
    → IsUsable (normalize_cutoffs grain c)
unfolding normalize_cutoffs
normalize_cutoffs-IsUsable grain c p q r e = record {
  some_capacity = ground (arith, p);
  some_threshold = ground (arith, q);
  threshold_fits = ground (arith, r);
  low_normal = ground (arith, e);
  normal_high = ground (arith, e);
  high_fits = ground (arith, e);
}

pub new_config-IsUsable :
    (grain : ℕ) (opts : List (Option ShedOption)) → 0 < grain → IsUsable (new_config grain opts)
unfolding new_config
new_config-IsUsable grain opts g =
    let c = apply_all opts (defaults grain) in
    let e : c.scale ≡ 20 * grain = apply_all-scale opts (defaults grain) in
    normalize_cutoffs-IsUsable grain (valid_hysteresis (valid_threshold grain (floor_capacity c)))
      (ground arith) (ground (arith, g)) (ground (arith, e)) e
