-- ===== src/Adaptx/Rings.antt =====
-- adaptx/adaptx.go: the ring of samples as a list.
use urx.Base.{
  ℕ, suc, ◌+◌, ◌-◌, ◌%◌, ◌≤◌, ◌<◌, ◌≡◌, ◌≢◌, inl, inr, ap, subst, sym, ◌∙◌, List, [], ◌∷◌, ◌++◌,
  arith, length, length-append, get_elem?, set, if_true, if_false, Bool-cases, ltb, ltb→lt, ltb→ge,
}
use native.Mathlib.Nat.{mod-eq_of_lt, add-mod_right, mod-lt}
use urx.Base.Slices.{
  drop, last_of, length-set, get_elem?-set_same, get_elem?-set_other, get_elem?-append_last,
  get_elem?-append, length-drop, get_elem?-drop_one,
}
use urx.Adaptx.Types.{Sample, Ring}
use urx.Adaptx.Window.{push_sample}
use urx.Adaptx.Stats.{place}

-- The ring holds the samples `xs`, the oldest first.
pub record Represents (r : Ring) (xs : List Sample) : Type 0 where
  pub positive : 0 < r.ring_cap
  pub size : length r.samples ≡ r.ring_cap
  pub inside : r.head < r.ring_cap
  pub counted : r.count ≡ length xs
  pub fits : r.count ≤ r.ring_cap
  pub holds : (i : ℕ) → i < r.count → get_elem? r.samples (place r i) ≡ get_elem? xs i

-- A remainder where the number is below the divisor, or below its double.
mod_low : (n m : ℕ) → n < m → n % m ≡ n
mod_low n m h = mod-eq_of_lt h

mod_high : (n m : ℕ) → m ≤ n → n < m + m → n % m ≡ n - m
mod_high n m h k =
    ap (λ x. x % m) (let e : n ≡ n - m + m = omega arith in e)
    ∙ add-mod_right (n - m) m
    ∙ mod-eq_of_lt (omega arith)

-- The places of the samples are not the head, but where the ring is full that of the oldest.
place_other :
    (r : Ring) (xs : List Sample) (i : ℕ)
    → Represents r xs
    → i < r.count
    → 0 < r.ring_cap - r.count + i
    → r.head ≢ place r i
place_other r xs i v h k = elim (Bool-cases (ltb (r.head + i) r.count)) [
  | inl e ↦
      let less = ltb→lt (r.head + i) r.count e in
      let at = mod_low (r.head + r.ring_cap + i - r.count) r.ring_cap (omega (arith, less)) in
      omega (arith, at, k, v.fits, v.inside)
  | inr e ↦
      let more = ltb→ge (r.head + i) r.count e in
      let at =
        mod_high (r.head + r.ring_cap + i - r.count) r.ring_cap (omega (arith, more))
          (omega (arith, v.inside, h, more)) in
      omega (arith, at, h, more)
]

-- The place that the head is at is that of the number after the last.
place_head : (r : Ring) (xs : List Sample) → Represents r xs → place r r.count ≡ r.head
place_head r xs v =
    mod_high (r.head + r.ring_cap + r.count - r.count) r.ring_cap (omega arith)
      (omega (arith, v.inside))
    ∙ omega arith

-- The places after the head has moved on, with `k` samples dropped.
place_moved :
    (head cap i count count' k : ℕ)
    → head < cap
    → count' ≤ cap
    → count ≤ cap
    → count' + k ≡ count + 1
    → i < count'
    → ((head + 1) % cap + cap + i - count') % cap ≡ (head + cap + (i + k) - count) % cap
place_moved head cap i count count' k h f g e l = elim (Bool-cases (ltb (head + 1) cap)) [
  | inl t ↦
      let at = mod_low (head + 1) cap (ltb→lt (head + 1) cap t) in
      ap (λ x. x % cap) (omega (arith, at, e, l, f))
  | inr t ↦
      let last = ltb→ge (head + 1) cap t in
      let at = mod_high (head + 1) cap last (omega (arith, h)) in
      sym (add-mod_right ((head + 1) % cap + cap + i - count') cap)
      ∙ ap (λ x. x % cap) (omega (arith, at, last, h, e, l, f))
]

-- One more sample, and `k` old ones dropped.
moved-holds :
    (r : Ring) (xs : List Sample) (s : Sample) (i k : ℕ)
    → Represents r xs
    → (push_sample s r).count ≤ r.ring_cap
    → (push_sample s r).count + k ≡ r.count + 1
    → 0 < r.ring_cap - r.count + k
    → i < (push_sample s r).count
    → get_elem? (push_sample s r).samples (place (push_sample s r) i)
      ≡ get_elem? (xs ++ s ∷ []) (i + k)
unfolding push_sample
moved-holds r xs s i k v f e p l =
    let count' = (push_sample s r).count in
    let moved = place_moved r.head r.ring_cap i r.count count' k v.inside f v.fits e l in
    let written = set r.samples r.head s in
    ap (get_elem? written) moved ∙ elim (Bool-cases (ltb (i + k) r.count)) [
      | inl t ↦
          let less = ltb→lt (i + k) r.count t in
          get_elem?-set_other r.samples r.head (place r (i + k)) s
            (place_other r xs (i + k) v less (omega (arith, p)))
          ∙ v.holds (i + k) less
          ∙ sym (get_elem?-append xs (s ∷ []) (i + k) (omega (arith, less, v.counted)))
      | inr t ↦
          let more = ltb→ge (i + k) r.count t in
          let here : i + k ≡ r.count = omega (arith, more, e, l) in
          ap (λ n. get_elem? written (place r n)) here
          ∙ ap (get_elem? written) (place_head r xs v)
          ∙ get_elem?-set_same r.samples r.head s (omega (arith, v.inside, v.size))
          ∙ sym (get_elem?-append_last xs s)
          ∙ ap (get_elem? (xs ++ s ∷ [])) (omega (arith, here, v.counted))
    ]

dropped-Represents :
    (r : Ring) (xs : List Sample) (s : Sample) (k : ℕ)
    → Represents r xs
    → (push_sample s r).count ≤ r.ring_cap
    → (push_sample s r).count + k ≡ r.count + 1
    → 0 < r.ring_cap - r.count + k
    → ((i : ℕ) → get_elem? (drop k (xs ++ s ∷ [])) i ≡ get_elem? (xs ++ s ∷ []) (i + k))
    → Represents (push_sample s r) (drop k (xs ++ s ∷ []))
unfolding push_sample
dropped-Represents r xs s k v f e p d = record {
  positive = v.positive;
  size = length-set r.samples r.head s ∙ v.size;
  inside = mod-lt (r.head + 1) v.positive;
  counted = omega (arith, length-drop k (xs ++ s ∷ []), length-append xs (s ∷ []), v.counted, e);
  fits = f;
  holds = λ i h. moved-holds r xs s i k v f e p h ∙ sym (d i);
}

pub push-Represents :
    (r : Ring) (xs : List Sample) (s : Sample)
    → Represents r xs
    → Represents (push_sample s r) (last_of r.ring_cap (xs ++ s ∷ []))
unfolding push_sample
push-Represents r xs s v =
    let ys = xs ++ s ∷ [] in
    let size = length-append xs (s ∷ []) in
    let P = λ (k : ℕ). Represents (push_sample s r) (drop k ys) in
    elim (Bool-cases (ltb r.count r.ring_cap)) [
      | inl t ↦
          let less = ltb→lt r.count r.ring_cap t in
          let count = if_true (ltb r.count r.ring_cap) (r.count + 1) r.count t in
          let none_goes : 0 ≡ length ys - r.ring_cap = omega (arith, less, size, v.counted) in
          subst P none_goes (
            dropped-Represents r xs s 0 v (omega (arith, count, less)) (omega (arith, count))
              (omega (arith, less)) (λ i. ap (get_elem? ys) (omega arith)))
      | inr t ↦
          let more = ltb→ge r.count r.ring_cap t in
          let count = if_false (ltb r.count r.ring_cap) (r.count + 1) r.count t in
          let one_goes : 1 ≡ length ys - r.ring_cap =
            omega (arith, more, size, v.counted, v.fits) in
          subst P one_goes (
            dropped-Represents r xs s 1 v (omega (arith, count, v.fits)) (omega (arith, count))
              (omega arith)
              (λ i.
                get_elem?-drop_one ys i
                ∙ ap (get_elem? ys) (let e : suc i ≡ i + 1 = omega arith in e)))
    ]
