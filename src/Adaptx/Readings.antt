-- ===== src/Adaptx/Readings.antt =====
-- adaptx/adaptx.go: readings of the ring of samples.
use urx.Base.{
  ℕ, zero, suc, ◌+◌, ◌-◌, ◌<◌, ◌≡◌, inl, inr, ap, subst, sym, ◌∙◌, some, List, [], ◌∷◌, ◌++◌, map,
  arith, length, length-append, replicate, Bool-cases, ltb, ltb→lt, ltb→ge,
}
use urx.Base.Slices.{
  drop, last_of, get_elem?_total, length-replicate, append_nil, append_assoc, length-drop,
  drop-append, drop_one-drop, drop-some, drop_all,
}
use urx.Adaptx.Types.{Sample, Ring}
use urx.Adaptx.Limiter.{empty_sample}
use urx.Adaptx.Window.{push_sample}
use urx.Adaptx.Stats.{read_from, read_ring}
use urx.Adaptx.Rings.{Represents, push-Represents}

abbrev pub push_all : List Sample → Ring → Ring
push_all [] r = r
push_all (s ∷ ss) r = push_all ss (push_sample s r)

-- The last entries of the last entries.
last_of-append :
    (n : ℕ) (xs : List Sample) (s : Sample)
    → last_of n (last_of n xs ++ s ∷ []) ≡ last_of n (xs ++ s ∷ [])
last_of-append n xs s = elim (Bool-cases (ltb (length xs) n)) [
  | inl t ↦
      let less = ltb→lt (length xs) n t in
      let kept : last_of n xs ≡ xs =
        ap (λ k. drop k xs) (let e : length xs - n ≡ 0 = omega (arith, less) in e) in
      ap (λ ys. last_of n (ys ++ s ∷ [])) kept
  | inr t ↦
      let more = ltb→ge (length xs) n t in
      let k = length xs - n in
      let ys = drop k xs ++ s ∷ [] in
      let size = length-append (drop k xs) (s ∷ []) in
      let size' = length-append xs (s ∷ []) in
      let one : length ys - n ≡ 1 = omega (arith, size, length-drop k xs, more) in
      let all : length (xs ++ s ∷ []) - n ≡ suc k = omega (arith, size', more) in
      ap (λ j. drop j ys) one
      ∙ ap (drop 1) (sym (drop-append k xs (s ∷ []) (omega arith)))
      ∙ drop_one-drop k (xs ++ s ∷ [])
      ∙ ap (λ j. drop j (xs ++ s ∷ [])) (sym all)
]

read_from_lem :
    (r : Ring) (xs : List Sample) (i k : ℕ)
    → Represents r xs
    → i + k ≡ r.count
    → read_from r i k ≡ map some (drop i xs)
unfolding read_from
read_from_lem r xs i zero v e = ap (map some) (sym (drop_all xs i (omega (arith, e, v.counted))))
read_from_lem r xs i (suc k) v e =
    let less : i < r.count = omega (arith, e) in
    let (x, f) = get_elem?_total xs i (omega (arith, less, v.counted)) in
    let rest = read_from_lem r xs (i + 1) k v (omega (arith, e)) in
    let next : i + 1 ≡ suc i = omega arith in
    ap (λ o. o ∷ read_from r (i + 1) k) (v.holds i less ∙ f)
    ∙ ap (λ os. some x ∷ os) (rest ∙ ap (λ j. map some (drop j xs)) next)
    ∙ sym (ap (map some) (drop-some xs i x f))

push_all-Represents :
    (ss xs : List Sample) (r : Ring)
    → Represents r (last_of r.ring_cap xs)
    → Represents (push_all ss r) (last_of r.ring_cap (xs ++ ss))
unfolding push_sample
push_all-Represents [] xs r v =
    subst (λ ys. Represents r (last_of r.ring_cap ys)) (sym (append_nil xs)) v
push_all-Represents (s ∷ ss) xs r v =
    let pushed =
      subst (Represents (push_sample s r)) (last_of-append r.ring_cap xs s)
        (push-Represents r (last_of r.ring_cap xs) s v) in
    subst (λ ys. Represents (push_all ss (push_sample s r)) (last_of r.ring_cap ys))
      (append_assoc xs (s ∷ []) ss) (push_all-Represents ss (xs ++ s ∷ []) (push_sample s r) pushed)

-- Whatever samples are recorded from an empty ring on, a reading gives the latest of them, as many as
-- the ring has places, in the order in which they were recorded.
pub read_ring-push_all :
    (n : ℕ) (ss : List Sample)
    → 0 < n
    → read_ring (
        push_all ss
          (record { samples = replicate n empty_sample; head = 0; count = 0; ring_cap = n }))
      ≡ map some (last_of n ss)
unfolding read_ring
read_ring-push_all n ss h =
    let r : Ring = record {
      samples = replicate n empty_sample;
      head = 0;
      count = 0;
      ring_cap = n;
    } in
    let empty : Represents r (last_of n []) = record {
      positive = h;
      size = length-replicate n empty_sample;
      inside = h;
      counted = omega (arith, length-drop {A = Sample} (0 - n) []);
      fits = omega arith;
      holds = λ i k. absurd (omega (arith, k));
    } in
    let v = push_all-Represents ss [] r empty in
    read_from_lem (push_all ss r) (last_of n ss) 0 (push_all ss r).count v (omega arith)
