-- ===== src/Ratex/Config.antt =====
-- ratex/options.go. A burst below 0 is kept as 0: the floor makes 1 of both. The clock is no part of
-- the configuration here, since its readings are arguments.
use urx.Base.{ℕ, zero, suc, ◌<◌, Option, none, some, List, [], ◌∷◌, if◌then◌else◌, ltb, arith}
use urx.Base.Int.{ℤ, pos, negsuc, pos_part}
use urx.Ratex.Types.{Config}

abbrev pub default_rate : ℕ
default_rate = 10

abbrev pub default_burst : ℕ
default_burst = 20

abbrev pub min_burst : ℕ
min_burst = 1

pub data LimiterOption : Type 0 where
  -- the fraction of an integer and of one more than a number
  with_rate : ℤ → ℕ → LimiterOption
  with_burst : ℤ → LimiterOption

-- `if r > 0 { c.rate = r }`
abbrev set_rate : ℤ → ℕ → Config → Config
set_rate (pos (suc n)) d c = record c { rate_num = suc n; rate_den = suc d }
set_rate _ d c = c

unfoldable pub apply : LimiterOption → Config → Config
apply (with_rate n d) c = set_rate n d c
apply (with_burst n) c = record c { burst = pos_part n }

unfoldable pub apply_all : List (Option LimiterOption) → Config → Config
unfolding apply
apply_all [] c = c
apply_all (none ∷ opts) c = apply_all opts c
apply_all (some opt ∷ opts) c = apply_all opts (apply opt c)

abbrev defaults : Config
defaults = record { rate_num = default_rate; rate_den = 1; burst = default_burst }

abbrev floors : Config → Config
floors c =
    let c' = if ltb 0 c.rate_num then c else record c { rate_num = default_rate; rate_den = 1 } in
    if ltb c'.burst min_burst then record c' { burst = min_burst } else c'

unfoldable pub new_config : List (Option LimiterOption) → Config
unfolding apply_all
new_config opts = floors (apply_all opts defaults)

pub record IsUsable (c : Config) : Type 0 where
  pub fills : 0 < c.rate_num
  pub scaled : 0 < c.rate_den
  pub holds : 0 < c.burst

scaled_after :
    (opts : List (Option LimiterOption)) (c : Config)
    → 0 < c.rate_den
    → 0 < (apply_all opts c).rate_den
unfolding apply_all
scaled_after [] c h = h
scaled_after (none ∷ opts) c h = scaled_after opts c h
scaled_after (some (with_rate (pos (suc n)) d) ∷ opts) c h = scaled_after opts _ (omega arith)
scaled_after (some (with_rate (pos zero) d) ∷ opts) c h = scaled_after opts c h
scaled_after (some (with_rate (negsuc n) d) ∷ opts) c h = scaled_after opts c h
scaled_after (some (with_burst n) ∷ opts) c h = scaled_after opts _ h

-- Whatever options are given, the rate is above 0 and the bucket holds a token.
pub new_config-IsUsable : (opts : List (Option LimiterOption)) → IsUsable (new_config opts)
unfolding new_config
new_config-IsUsable opts = ground (arith, scaled_after opts defaults (omega arith))
