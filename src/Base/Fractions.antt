-- ===== src/Base/Fractions.antt =====
-- Go's floats that are at least 0, as exact fractions; a denominator is above 0.
use Prim.Native.Nat.{ℕ, ◌+◌, ◌-◌, ◌*◌, ◌/◌}
use mathlib.Core.Bool.{Bool}
use urx.Base.Tests.{ltb, leb}

pub record Fraction : Type 0 where
  pub num : ℕ
  pub den : ℕ

abbrev pub whole : ℕ → Fraction
whole n = record { num = n; den = 1 }

abbrev pub half : Fraction
half = record { num = 1; den = 2 }

abbrev pub plus : Fraction → Fraction → Fraction
plus a b = record { num = a.num * b.den + b.num * a.den; den = a.den * b.den }

-- Where the difference is at least 0.
abbrev pub minus : Fraction → Fraction → Fraction
minus a b = record { num = a.num * b.den - b.num * a.den; den = a.den * b.den }

abbrev pub times : Fraction → Fraction → Fraction
times a b = record { num = a.num * b.num; den = a.den * b.den }

abbrev pub over : Fraction → Fraction → Fraction
over a b = record { num = a.num * b.den; den = a.den * b.num }

abbrev pub is_below : Fraction → Fraction → Bool
is_below a b = ltb (a.num * b.den) (b.num * a.den)

abbrev pub is_at_most : Fraction → Fraction → Bool
is_at_most a b = leb (a.num * b.den) (b.num * a.den)

-- `int(f)`
abbrev pub trunc : Fraction → ℕ
trunc a = a.num / a.den

-- `int(math.Ceil(f))`
abbrev pub ceil : Fraction → ℕ
ceil a = (a.num + (a.den - 1)) / a.den
