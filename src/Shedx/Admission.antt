-- ===== src/Shedx/Admission.antt =====
-- shedx/shedx.go: whom `admits` lets in.
use urx.Base.{
  ℕ, ◌+◌, ◌-◌, ◌*◌, ◌≤◌, ◌<◌, ◌≡◌, ◌⊎◌, inl, inr, refl, sym, ap, subst, ◌∙◌, Bool, true, false,
  arith, if◌then◌else◌, ltb, leb, ◌==◌, ltb→lt, Bool-cases,
}
use native.Mathlib.Decide.{dec_lt}
use urx.Shedx.Config.{Config, Priority, low, normal, high, critical, other, IsUsable}
use urx.Shedx.Shedder.{
  Shedder, load_below, cutoff_of, apply_cutoffs, is_critical, admits_below, admits,
}

mul_le : (a b c : ℕ) → a ≤ b → a * c ≤ b * c
mul_le a b c h = grind arith

below_whole : (n s part cap : ℕ) → part ≤ s → n * s < part * cap → n < cap
below_whole n s part cap h l = elim (dec_lt n cap) [
  | yes y ↦ y
  | no k ↦
      let a = mul_le part s cap h in
      let b = mul_le cap n s (omega (arith, k)) in
      let c : s * cap ≡ cap * s = omega arith in absurd (omega (arith, a, b, c, l))
]

distrib : (d t cap : ℕ) → d * cap + t * cap ≡ (d + t) * cap
distrib d t cap = grind arith

below_band :
    (n s t cut cap : ℕ) → t ≤ s → cut ≤ s → (n * s - t * cap) * s < cut * ((s - t) * cap) → n < cap
below_band n s t cut cap h k l = elim (dec_lt n cap) [
  | yes y ↦ y
  | no m ↦
      let a = mul_le cap n s (omega (arith, m)) in
      let whole : (s - t) + t ≡ s = omega (arith, h) in
      let split : (s - t) * cap + t * cap ≡ s * cap =
        distrib (s - t) t cap ∙ ap (λ z. z * cap) whole in
      let x : (s - t) * cap ≤ n * s - t * cap = omega (arith, a, split) in
      let b = mul_le ((s - t) * cap) (n * s - t * cap) s x in
      let d = mul_le cut s ((s - t) * cap) k in
      let c : s * ((s - t) * cap) ≡ (s - t) * cap * s = grind arith in
      absurd (omega (arith, b, d, c, l))
]

-- A load below a part of at most the whole is below the capacity.
load_below-bound :
    (c : Config) (n part : ℕ) → part ≤ c.scale → load_below c n part ≡ true → n < c.capacity
load_below-bound c n part h e =
    below_whole n c.scale part c.capacity h (ltb→lt (n * c.scale) (part * c.capacity) e)

cutoff_of-bound : (c : Config) (p : Priority) → IsUsable c → cutoff_of c p ≤ c.scale
cutoff_of-bound c low u = omega (arith, u.low_normal, u.normal_high, u.high_fits)
cutoff_of-bound c normal u = omega (arith, u.normal_high, u.high_fits)
cutoff_of-bound c high u = u.high_fits
cutoff_of-bound c critical u = u.high_fits
cutoff_of-bound c (other n) u = u.high_fits

apply_cutoffs-bound :
    (c : Config) (n : ℕ) (p : Priority) → IsUsable c → apply_cutoffs c n p ≡ true → n < c.capacity
unfolding apply_cutoffs
apply_cutoffs-bound c n p u e =
    let below : (n * c.scale - c.threshold * c.capacity) * c.scale
        < cutoff_of c p * ((c.scale - c.threshold) * c.capacity) =
      ground (arith, e) in
    below_band n c.scale c.threshold (cutoff_of c p) c.capacity u.threshold_fits
      (cutoff_of-bound c p u) below

-- The tests of `admits`, as it asks them.
abbrev choose : (hysteresis shedding a b d : Bool) → Bool × Bool
choose hysteresis shedding a b d =
    if hysteresis
    then (if shedding
        then (if a then (true, false) else (if b then (false, true) else (d, true)))
        else (if b then (true, false) else (d, true)))
    else (if b then (true, shedding) else (d, shedding))

choose-cases :
    (hysteresis shedding a b d : Bool)
    → (choose hysteresis shedding a b d).0 ≡ true
    → (a ≡ true) ⊎ (b ≡ true) ⊎ (d ≡ true)
choose-cases hysteresis shedding a b d e = ground (arith, e)

-- The ways in which a request that is not critical is admitted.
admits_below-cases :
    (c : Config) (shedding : Bool) (n : ℕ) (p : Priority)
    → (admits_below c shedding n p).0 ≡ true
    → (load_below c n (c.threshold - c.hysteresis) ≡ true)
      ⊎ (load_below c n c.threshold ≡ true)
      ⊎ (apply_cutoffs c n p ≡ true)
unfolding admits_below
admits_below-cases c shedding n p e =
    choose-cases (ltb 0 c.hysteresis) shedding (load_below c n (c.threshold - c.hysteresis))
      (load_below c n c.threshold) (apply_cutoffs c n p) e

-- A request that is not critical is admitted only while the count with it stays below the capacity.
pub admits_below-bound :
    (c : Config) (shedding : Bool) (n : ℕ) (p : Priority)
    → IsUsable c
    → (admits_below c shedding n p).0 ≡ true
    → n < c.capacity
admits_below-bound c shedding n p u e = elim (admits_below-cases c shedding n p e) [
  | inl a ↦ load_below-bound c n (c.threshold - c.hysteresis) (omega (arith, u.threshold_fits)) a
  | inr r ↦ elim r [
    | inl b ↦ load_below-bound c n c.threshold u.threshold_fits b
    | inr d ↦ apply_cutoffs-bound c n p u d
  ]
]

-- How urgent a request is: an unknown priority counts as high.
abbrev pub rank : Priority → ℕ
rank low = 0
rank normal = 1
rank high = 2
rank (other n) = 2
rank critical = 3

-- The cutoff of a priority by its rank.
abbrev cutoff_at : Config → ℕ → ℕ
cutoff_at c r = if r == 0 then c.cutoff_low else (if r == 1 then c.cutoff_normal else c.cutoff_high)

cutoff_of-at : (c : Config) (p : Priority) → cutoff_of c p ≡ cutoff_at c (rank p)
cutoff_of-at c low = refl
cutoff_of-at c normal = refl
cutoff_of-at c high = refl
cutoff_of-at c critical = refl
cutoff_of-at c (other n) = refl

cutoff_at_mono : (c : Config) (r t : ℕ) → IsUsable c → r ≤ t → cutoff_at c r ≤ cutoff_at c t
cutoff_at_mono c r t u h = ground (arith, h, u.low_normal, u.normal_high)

critical_rank : (p : Priority) → is_critical p ≡ leb 3 (rank p)
critical_rank low = refl
critical_rank normal = refl
critical_rank high = refl
critical_rank critical = refl
critical_rank (other n) = refl

apply_cutoffs_mono :
    (c : Config) (n : ℕ) (p q : Priority)
    → IsUsable c
    → rank p ≤ rank q
    → apply_cutoffs c n p ≡ true
    → apply_cutoffs c n q ≡ true
unfolding apply_cutoffs
apply_cutoffs_mono c n p q u h e =
    let room = (c.scale - c.threshold) * c.capacity in
    let a = cutoff_at_mono c (rank p) (rank q) u h in
    let b : cutoff_of c p ≤ cutoff_of c q = omega (arith, a, cutoff_of-at c p, cutoff_of-at c q) in
    let d = mul_le (cutoff_of c p) (cutoff_of c q) room b in ground (arith, e, d)

choose_mono :
    (hysteresis shedding a b d d' : Bool)
    → (d ≡ true → d' ≡ true)
    → (choose hysteresis shedding a b d).0 ≡ true
    → (choose hysteresis shedding a b d').0 ≡ true
choose_mono hysteresis shedding a b true d' f e =
    subst (λ k. (choose hysteresis shedding a b k).0 ≡ true) (sym (f refl)) e
choose_mono hysteresis shedding a b false d' f e = ground (arith, e)

admits_as :
    (p : Priority) (n : ℕ) (s : Shedder)
    → (admits p n s).1 ≡ (if is_critical p then true else (admits_below s.cfg s.shedding n p).0)
unfolding admits
admits_as p n s = elim (Bool-cases (is_critical p)) [
  | inl e ↦ rw (e, admits) refl
  | inr e ↦ rw (e, admits) refl
]

-- Where a request is admitted, one at least as urgent is admitted in its place.
pub admits_mono :
    (p q : Priority) (n : ℕ) (s : Shedder)
    → IsUsable s.cfg
    → rank p ≤ rank q
    → (admits p n s).1 ≡ true
    → (admits q n s).1 ≡ true
unfolding admits_below
admits_mono p q n s u h e =
    let c = s.cfg in
    let below =
      choose_mono (ltb 0 c.hysteresis) s.shedding (load_below c n (c.threshold - c.hysteresis))
        (load_below c n c.threshold) (apply_cutoffs c n p) (apply_cutoffs c n q)
        (apply_cutoffs_mono c n p q u h) in
    elim (Bool-cases (is_critical q)) [
      | inl k ↦ admits_as q n s ∙ ap (λ b. if b then true else (admits_below c s.shedding n q).0) k
      | inr k ↦
          let j : is_critical p ≡ false = ground (arith, h, k, critical_rank p, critical_rank q) in
          let given =
            sym
              (admits_as p n s ∙ ap (λ b. if b then true else (admits_below c s.shedding n p).0) j)
            ∙ e in
          admits_as q n s
          ∙ (ap (λ b. if b then true else (admits_below c s.shedding n q).0) k ∙ below given)
    ]
