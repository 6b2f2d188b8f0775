-- ===== src/Quotax/Balance.antt =====
-- quotax/quotax.go: the pins on a key in the loop of a blocking call.
use urx.Base.{
  ℕ, ◌*◌, ◌<◌, ◌≡◌, refl, sym, ap, ◌∙◌, Bool, true, false, Option, none, some, List, [], ◌∷◌, arith,
  if-intro, IsEquality, Option-cases, inl, inr, All,
}
use urx.Base.Errors.{Error}
use urx.Base.Int.{pos}
use urx.Ratex.Bucket.{allow_n, release, get_tokens}
use urx.Ratex.Types.{grain}
use urx.Ratex.Wait.{delay}
use urx.Quotax.Table.{Bucket, find}
use urx.Quotax.Tables.{find-replace-same}
use urx.Quotax.Gates.{record_ok-keeps}
use urx.Quotax.Quota.{Quota, record_ok, write}
use urx.Quotax.Pins.{StaysPinned, follow, run-follow}
use urx.Quotax.Ops.{QuotaOp, run}
use urx.Quotax.Waits.{
  Round, Wake, by_ctx, by_close, by_timer, Admission, still_waiting, admitted, turned_away, granted,
  woken, wait_loop, write_limiter,
}

abbrev pub pins_of : Option Bucket → ℕ
pins_of none = 0
pins_of (some b) = b.pins

module _ {ℓ} {K : Type ℓ} (same : K → K → Bool) where
  abbrev pub pins_at : K → Quota K → ℕ
  pins_at key q = pins_of (find same key q.entries)

  -- What others do leaves the number of pins of a pinned key as it is.
  abbrev pub KeepsPins : K → (Quota K → Quota K) → Type ℓ
  KeepsPins key f = (q : Quota K) → 0 < pins_at key q → pins_at key (f q) ≡ pins_at key q

  -- A call that has come back leaves so many pins.
  abbrev pub Leaves : K → ℕ → Quota K × Admission → Type 0
  Leaves key p (q, still_waiting) = Unit
  Leaves key p (q, admitted remaining waited) = pins_at key q ≡ p
  Leaves key p (q, turned_away e) = pins_at key q ≡ p

  -- What others do while a call sleeps leaves the number of pins as it is.
  abbrev pub Fair : (K → ℕ) → K → Round K → Type ℓ
  Fair hash key r = KeepsPins key (run same hash r.others)

  pub record_ok-pins :
      (ok : Bool) (key : K) (q : Quota K) → pins_at key (record_ok ok q) ≡ pins_at key q
  record_ok-pins ok key q = ap (λ es. pins_of (find same key es)) (record_ok-keeps ok q).0

  module _ (eq : IsEquality same) where
    pub write-pins :
        (key : K) (b b' : Bucket) (q : Quota K)
        → find same key q.entries ≡ some b
        → pins_at key (write same key b' q) ≡ b'.pins
    write-pins key b b' q f = ap pins_of (find-replace-same same eq key b b' q.entries f)

    granted-pins :
        (after : Option Error) (now n : ℕ) (waited : Bool) (key : K) (b : Bucket) (q : Quota K)
        → find same key q.entries ≡ some b
        → pins_at key (granted same after now n waited key b q).0 ≡ b.pins
    granted-pins (some e) now n waited key b q f =
        let b' = record b { limiter = release (n * grain b.limiter.cfg) b.limiter } in
        record_ok-pins false key (write same key b' q) ∙ write-pins key b b' q f
    granted-pins none now n waited key b q f =
        let b' = record b { limiter = (get_tokens now b.limiter).0 } in
        record_ok-pins true key (write same key b' q) ∙ write-pins key b b' q f

    woken-pins :
        (w : Wake) (again : Quota K × Admission) (key : K) (q : Quota K)
        → pins_at key again.0 ≡ pins_at key q
        → pins_at key (woken same w again q).0 ≡ pins_at key q
    woken-pins (by_ctx e) again key q h = record_ok-pins false key q
    woken-pins by_close again key q h =
        if-intro (λ (x : Quota K × Admission). pins_at key x.0 ≡ pins_at key q) q.is_shut _
          (q, still_waiting) (record_ok-pins false key q) refl
    woken-pins (by_timer (some e)) again key q h = record_ok-pins false key q
    woken-pins (by_timer none) again key q h = h

    module _ (hash : K → ℕ) (key : K) where
      pub wait_loop-pins :
          (n : ℕ) (waited : Bool) (rs : List (Round K)) (q : Quota K)
          → 0 < pins_at key q
          → All (Fair hash key) rs
          → pins_at key (wait_loop same hash n waited key rs q).0 ≡ pins_at key q
      unfolding wait_loop
      wait_loop-pins n waited [] q p fair = refl
      wait_loop-pins n waited (r ∷ rs) q p fair =
          let P = λ (x : Quota K × Admission). pins_at key x.0 ≡ pins_at key q in
          let away = record_ok-pins false key q in
          elim (Option-cases r.before) [
            | inr (e, c) ↦ rw (c, wait_loop) (if-intro P q.is_shut _ _ away away)
            | inl c ↦ elim (Option-cases (find same key q.entries)) [
              | inl f ↦
                  let none_left : pins_at key q ≡ 0 = ap pins_of f in
                  absurd (omega (arith, p, none_left))
              | inr (b, f) ↦
                  let (l, ok) = allow_n r.take_at (pos n) b.limiter in
                  let b' = record b { last_access = r.take_at; limiter = l } in
                  let read = (delay r.read_at (n * grain l.cfg) l).0 in
                  let found = find-replace-same same eq key b b' q.entries f in
                  let taken = write same key b' q in
                  let settled = write_limiter same key read b' taken in
                  let slept = run same hash r.others settled in
                  let here : pins_at key settled ≡ b.pins =
                    write-pins key b' (record b' { limiter = read }) taken found in
                  let own : pins_at key q ≡ b.pins = ap pins_of f in
                  let kept : pins_at key slept ≡ b.pins =
                    fair.0 settled (omega (arith, p, own, here)) ∙ here in
                  let later : P (wait_loop same hash n true key rs slept) =
                    wait_loop-pins n true rs slept (omega (arith, p, own, kept)) fair.1
                    ∙ kept
                    ∙ sym own in
                  rw (c, wait_loop)
                    (rw f (
                      if-intro (λ (x : Quota K × Admission). pins_at key x.0 ≡ b.pins) q.is_shut _ _
                        (away ∙ own)
                        (if-intro (λ (x : Quota K × Admission). pins_at key x.0 ≡ b.pins) ok _ _
                          (granted-pins r.after r.read_at n waited key b' taken found)
                          (woken-pins r.wake (wait_loop same hash n true key rs slept) key slept
                              (later ∙ own ∙ sym kept)
                            ∙ kept))))
            ]
          ]

  -- The operations that leave the pins of any pinned bucket as they are.
  pub follow-KeepsPins :
      (eq : IsEquality same) (hash : K → ℕ) (key : K) (ops : List (QuotaOp K))
      → ((b : Bucket) (s : Bool)
          → 0 < b.pins
          → StaysPinned same key ops s b × ((follow same key ops s b).pins ≡ b.pins))
      → KeepsPins key (run same hash ops)
  follow-KeepsPins eq hash key ops h q p = elim (Option-cases (find same key q.entries)) [
    | inl f ↦
        let none_left : pins_at key q ≡ 0 = ap pins_of f in absurd (omega (arith, p, none_left))
    | inr (b, f) ↦
        let own : pins_at key q ≡ b.pins = ap pins_of f in
        let (pinned, kept) = h b q.is_shut (omega (arith, p, own)) in
        ap pins_of (run-follow same eq hash key ops b q f pinned) ∙ kept ∙ sym own
  ]
