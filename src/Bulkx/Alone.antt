-- ===== src/Bulkx/Alone.antt =====
-- bulkx/bulkx.go: a call that no other goroutine meets.
use urx.Base.{
  ℕ, zero, suc, ◌+◌, ◌<◌, ◌≡◌, refl, sym, ap, subst, ◌∙◌, false, arith, if_true, if_false, ltb,
  lt→ltb, ge→ltb, ◌==◌,
}
use urx.Bulkx.Bulkhead.{
  Bulkhead, Mode, acquiring, executing, trying, Phase, looking, attempting, checking, yielding,
  committing, confirming, refunding, working, gone, served, Wake, no_slot, count_active, advance,
  arrive,
}

-- `n` operations of a call in a row, with a context that stays alive.
unfoldable pub advance_all : ℕ → Mode → Wake → Bulkhead × Phase → Bulkhead × Phase
unfolding advance
advance_all zero m w x = x
advance_all (suc n) m w (b, p) = advance_all n m w (advance m false w p b)

one_more :
    (n : ℕ) (m : Mode) (w : Wake) (p p' : Phase) (b b' : Bulkhead)
    → advance m false w p b ≡ (b', p')
    → advance_all (suc n) m w (b, p) ≡ advance_all n m w (b', p')
unfolding advance_all
one_more n m w p p' b b' e = ap (advance_all n m w) e

looking-attempting :
    (m : Mode) (w : Wake) (b : Bulkhead)
    → b.waiters ≡ 0
    → advance m false w looking b ≡ (b, attempting)
unfolding advance
looking-attempting m w b q =
    if_true (b.waiters == 0) (b, attempting) (no_slot m b) (ap (λ n. n == 0) q)

attempting-checking :
    (m : Mode) (w : Wake) (b : Bulkhead)
    → b.sem < b.cfg.max_concurrent
    → advance m false w attempting b ≡ (record b { sem = b.sem + 1 }, checking)
unfolding advance
attempting-checking m w b r =
    if_true (ltb b.sem b.cfg.max_concurrent) (record b { sem = b.sem + 1 }, checking) (no_slot m b)
      (lt→ltb b.sem b.cfg.max_concurrent r)

checking-committing :
    (m : Mode) (w : Wake) (b : Bulkhead)
    → b.waiters ≡ 0
    → advance m false w checking b ≡ (b, committing false)
unfolding advance
checking-committing m w b q =
    if_false (ltb 0 b.waiters) (b, yielding) (b, committing false)
      (ge→ltb 0 b.waiters (omega (arith, q)))

committing-confirming :
    (m : Mode) (w : Wake) (b : Bulkhead)
    → b.is_shut ≡ false
    → advance m false w (committing false) b ≡ (b, confirming false)
unfolding advance
committing-confirming m w b s = if_false b.is_shut (b, refunding false _) (b, confirming false) s

arrive-looking : (m : Mode) (b : Bulkhead) → b.is_shut ≡ false → arrive m false b ≡ (b, looking)
unfolding arrive
arrive-looking acquiring b s = if_false b.is_shut (b, gone _) (b, looking) s
arrive-looking executing b s = if_false b.is_shut (b, gone _) (b, looking) s
arrive-looking trying b s = if_false b.is_shut (b, gone _) (b, looking) s

-- The rest of the way, where nothing is asked of the bulkhead.
admitted-working :
    (n : ℕ) (m : Mode) (w : Wake) (b : Bulkhead)
    → advance_all (3 + n) m w (b, confirming false) ≡ advance_all n m w (count_active m b, working)
unfolding advance_all advance
admitted-working n m w b =
    ap (λ k. advance_all k m w (b, confirming false))
      (let e : 3 + n ≡ suc (suc (suc n)) = omega arith in e)

alone_path :
    (n : ℕ) (m : Mode) (w : Wake) (b : Bulkhead)
    → b.is_shut ≡ false
    → b.waiters ≡ 0
    → b.sem < b.cfg.max_concurrent
    → advance_all (suc (suc (suc (suc (3 + n))))) m w (arrive m false b)
      ≡ advance_all n m w (count_active m (record b { sem = b.sem + 1 }), working)
alone_path n m w b s q r =
    let b1 = record b { sem = b.sem + 1 } in
    ap (advance_all (suc (suc (suc (suc (3 + n))))) m w) (arrive-looking m b s)
    ∙ one_more (suc (suc (suc (3 + n)))) m w looking attempting b b (looking-attempting m w b q)
    ∙ one_more (suc (suc (3 + n))) m w attempting checking b b1 (attempting-checking m w b r)
    ∙ one_more (suc (3 + n)) m w checking (committing false) b1 b1 (checking-committing m w b1 q)
    ∙ one_more (3 + n) m w (committing false) (confirming false) b1 b1
        (committing-confirming m w b1 s)
    ∙ admitted-working n m w b1

abbrev Returns : Bulkhead → Bulkhead × Phase → Type 0
Returns b (b', p) =
    (p ≡ gone served)
    × (b'.sem ≡ b.sem)
    × (b'.active ≡ b.active)
    × (b'.waiters ≡ b.waiters)
    × (b'.rejected ≡ b.rejected)

working-Returns :
    (m : Mode) (w : Wake) (b : Bulkhead)
    → Returns b (advance_all 2 m w (count_active m (record b { sem = b.sem + 1 }), working))
unfolding advance_all advance
working-Returns acquiring w b = (refl, omega arith, omega arith, refl, refl)
working-Returns executing w b = (refl, omega arith, omega arith, refl, refl)
working-Returns trying w b = (refl, omega arith, omega arith, refl, refl)

-- A call on an open bulkhead that has a slot free and nobody waiting runs without a wait, whichever
-- of the three entry points it uses: after seven operations it has a slot and is counted as active,
-- and two more, at its end, give both back and leave the waiters and the rejections as they were.
pub alone_runs :
    (m : Mode) (w : Wake) (b : Bulkhead)
    → b.is_shut ≡ false
    → b.waiters ≡ 0
    → b.sem < b.cfg.max_concurrent
    → (advance_all 7 m w (arrive m false b)
        ≡ (count_active m (record b { sem = b.sem + 1 }), working))
      × Returns b (advance_all 9 m w (arrive m false b))
unfolding advance_all
alone_runs m w b s q r = (
  alone_path 0 m w b s q r,
  subst (Returns b) (sym (alone_path 2 m w b s q r)) (working-Returns m w b),
)
