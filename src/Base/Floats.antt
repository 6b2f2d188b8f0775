-- ===== src/Base/Floats.antt =====
-- Go's float64 addition of numbers that are at least 0: the sum is rounded to 53 significant bits, and a
-- tie to the even number. The numbers are counted in a unit that is a power of two.
use Prim.Native.Nat.{ℕ, zero, suc, ◌+◌, ◌-◌, ◌*◌, ◌/◌, ◌%◌, ◌≤◌, ◌<◌}
use mathlib.Core.Path.{◌≡◌}
use native.Mathlib.Nat.{div-mul-le_self, div-eq_of_lt}
use native.Mathlib.Omega.{arith}
use urx.Base.Tests.{if◌then◌else◌, ltb, ◌==◌, if-cases, if-intro}

-- 2 ^ 53
abbrev pub significand : ℕ
significand = 9007199254740992

-- The distance of the numbers with 53 bits around `s`, from `u` on; the fuel is the number of doublings.
unfoldable pub spacing : ℕ → ℕ → ℕ → ℕ
spacing zero u s = u
spacing (suc fuel) u s =
    let wider = spacing fuel (2 * u) s in if ltb s (significand * u) then u else wider

-- The nearest multiple of `u`, the even one of two.
unfoldable pub nearest : ℕ → ℕ → ℕ
nearest u s =
    let q = s / u in
    let below = q * u in
    let rest = s - below in
    if ltb (2 * rest) u
    then below
    else (if ltb u (2 * rest) then below + u else (if q % 2 == 0 then below else below + u))

-- `s / significand` doublings are enough, since `n` is below `2 ^ n`.
unfoldable pub round_float : ℕ → ℕ
unfolding spacing nearest
round_float s = nearest (spacing (s / significand) 1 s) s

pub round_float-exact : (s : ℕ) → s < significand → round_float s ≡ s
unfolding round_float spacing nearest
round_float-exact s h = rw (div-eq_of_lt h, spacing) (ground arith)

spacing-le : (fuel u s : ℕ) → u ≤ s → spacing fuel u s ≤ s
unfolding spacing
spacing-le zero u s h = h
spacing-le (suc fuel) u s h =
    if-cases (λ d. d ≤ s) (ltb s (significand * u)) u (spacing fuel (2 * u) s) (λ e. h)
      (λ e. spacing-le fuel (2 * u) s (ground arith))

nearest-le : (u s : ℕ) → u ≤ s → 2 * nearest u s ≤ 3 * s
unfolding nearest
nearest-le u s h =
    let down = div-mul-le_self s u in
    let P = λ (n : ℕ). 2 * n ≤ 3 * s in
    let below = s / u * u in
    let up = below + u in
    if-cases P (ltb (2 * (s - below)) u) below _ (λ e. omega (arith, down))
      (λ e.
        let far : u ≤ 2 * (s - below) = ground (arith, e) in
        if-intro P (ltb u (2 * (s - below))) up _ (omega (arith, down, far, h)) (
          if-intro P (s / u % 2 == 0) below up (omega (arith, down)) (omega (arith, down, far, h))))

-- A sum is rounded up by no more than half of it.
pub round_float-le : (s : ℕ) → 2 * round_float s ≤ 3 * s
unfolding round_float spacing nearest
round_float-le zero = omega arith
round_float-le (suc n) =
    nearest-le (spacing (suc n / significand) 1 (suc n)) (suc n)
      (spacing-le (suc n / significand) 1 (suc n) (omega arith))
