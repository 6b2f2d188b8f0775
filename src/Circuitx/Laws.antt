-- ===== src/Circuitx/Laws.antt =====
-- circuitx/circuitx.go: what single operations and runs of outcomes do to the breaker.
use urx.Base.{
  ℕ, zero, suc, ◌+◌, ◌<◌, ◌≡◌, ◌≢◌, refl, subst, ◌⊎◌, inl, inr, Bool, true, false, Option, none,
  some, Option-cases, List, [], ◌∷◌, arith, if◌then◌else◌, leb, ◌||◌, All, u64,
}
use urx.Base.Errors.{Error}
use urx.Circuitx.Breaker.{try_admit, is_open_state}
use urx.Circuitx.Execute.{settle, counts_as_failure}
use urx.Circuitx.Types.{closed, opened, half_open, Breaker, Execution, Config}

-- An open breaker rejects every call before its reset timeout has elapsed, counts the rejection and
-- stays as it is. From that time on a call is admitted, as the first probe of a new epoch.
pub try_admit-opened :
    (now : ℕ) (b : Breaker)
    → b.state ≡ opened
    → 0 < b.cfg.half_open_max
    → let due = leb (b.last_open + b.cfg.reset_timeout) now in
      let (b', adm) = try_admit now b in
      (adm.ok ≡ due)
      × (b'.state ≡ (if due then half_open else opened))
      × (adm.gen ≡ (if due then u64 (b.generation + 1) else b.generation))
      × (b'.half_open_inflight ≡ (if due then 1 else b.half_open_inflight))
      × (b'.half_open_successes ≡ (if due then 0 else b.half_open_successes))
      × (b'.rejected ≡ (if due then b.rejected else u64 (b.rejected + 1)))
unfolding try_admit
try_admit-opened now b o p = ground arith

-- A settlement with a stale generation, a call admitted before the circuit's last promotion, reset
-- or recovery, changes nothing but the cumulative counters.
pub settle_stale :
    (now gen : ℕ) (cc : Execution) (err : Option Error) (b : Breaker)
    → gen ≢ b.generation
    → let b' = settle now gen cc err b in
      b' ≡ record b { total_fail = b'.total_fail; successes = b'.successes }
unfolding settle
settle_stale now gen cc err b h = ground arith

-- A probe of the present epoch that fails opens the circuit at once, whatever the failure
-- threshold: the timeout starts anew, the trip is counted, and the successes so far are forgotten.
pub settle_probe_fails :
    (now : ℕ) (cc : Execution) (e : Error) (b : Breaker)
    → b.state ≡ half_open
    → cc.skip_failure ≡ false
    → counts_as_failure b.cfg e ≡ true
    → let b' = settle now b.generation cc (some e) b in
      (b'.state ≡ opened)
      × (b'.last_open ≡ now)
      × (b'.trips ≡ u64 (b.trips + 1))
      × (b'.half_open_successes ≡ 0)
      × (b'.generation ≡ b.generation)
unfolding settle
settle_probe_fails now cc e b s k c = ground arith

-- An outcome of a call: the clock's reading when it settles, and its error.
pub record Ending : Type 0 where
  pub now : ℕ
  pub err : Option Error

-- Calls of the same epoch that settle one after the other, the latest first.
unfoldable pub settle_all : Execution → Breaker → List Ending → Breaker
settle_all cc b [] = b
settle_all cc b (o ∷ os) = settle o.now b.generation cc o.err (settle_all cc b os)

-- How many of the latest calls failed in a row.
abbrev pub streak : List Ending → ℕ
streak [] = 0
streak (o ∷ os) = elim o.err [ none ↦ 0 | some _ ↦ suc (streak os) ]

-- Was there ever a row of `m` failures?
abbrev pub had_streak : ℕ → List Ending → Bool
had_streak m [] = false
had_streak m (o ∷ os) = leb m (streak (o ∷ os)) || had_streak m os

-- The error, if there is one, counts as a failure.
abbrev pub CountsIf : Config → Option Error → Type 0
CountsIf cfg none = Unit
CountsIf cfg (some e) = counts_as_failure cfg e ≡ true

abbrev pub Counts : Config → Ending → Type 0
Counts cfg o = CountsIf cfg o.err

record Tracks (b c : Breaker) (os : List Ending) : Type 0 where
  cfg : c.cfg ≡ b.cfg
  gen : c.generation ≡ b.generation
  open_iff : is_open_state c.state ≡ had_streak b.cfg.max_failures os
  closed_or :
      (c.state ≡ opened)
      ⊎ ((c.state ≡ closed) × (c.failures ≡ streak os) × (streak os < b.cfg.max_failures))

module _ (cc : Execution) (b : Breaker) (plain : cc.skip_failure ≡ false)
    (untripped : cc.tripped ≡ false) (some_failures : 0 < b.cfg.max_failures)
    (fits : b.cfg.max_failures < 2147483648) where
  settle-Tracks :
      (c : Breaker) (o : Ending) (os : List Ending)
      → Counts b.cfg o
      → Tracks b c os
      → Tracks b (settle o.now b.generation cc o.err c) (o ∷ os)
  unfolding settle
  settle-Tracks c o os k t = elim (Option-cases o.err) [
    | inl e ↦ rw e (rw untripped (ground arith))
    | inr (x, e) ↦
        let counted : counts_as_failure c.cfg x ≡ true = rw t.cfg (subst (CountsIf b.cfg) e k) in
        rw e (rw (plain, untripped, counted) (ground arith))
  ]

  settle_all-Tracks :
      (os : List Ending)
      → b.state ≡ closed
      → b.failures ≡ 0
      → All (Counts b.cfg) os
      → Tracks b (settle_all cc b os) os
  unfolding settle_all
  settle_all-Tracks [] s f k = ground arith
  settle_all-Tracks (o ∷ os) s f k =
      settle-Tracks (settle_all cc b os) o os k.0 (settle_all-Tracks os s f k.1)

  -- The outcomes of calls that settle in one epoch of a closed breaker with no failure yet, none
  -- skipped or forced by its controller, each error counting as a failure, and for a `max_failures`
  -- from 1 to below 2 ^ 31, as the counter of failures is an `int32`: the circuit is open afterwards exactly if at some time
  -- `max_failures` calls in a row had failed. Otherwise it is closed, and has counted the present
  -- row of failures, which is shorter.
  pub settle_all_lem :
      (os : List Ending)
      → b.state ≡ closed
      → b.failures ≡ 0
      → All (Counts b.cfg) os
      → let c = settle_all cc b os in
        (is_open_state c.state ≡ had_streak b.cfg.max_failures os)
        × ((c.state ≡ opened)
            ⊎ ((c.state ≡ closed) × (c.failures ≡ streak os) × (streak os < b.cfg.max_failures)))
  settle_all_lem os s f k = let t = settle_all-Tracks os s f k in (t.open_iff, t.closed_or)

-- `n` probes of one epoch that succeed, the latest at the head.
abbrev pub successes : ℕ → List Ending
successes zero = []
successes (suc n) = record { now = 0; err = none } ∷ successes n

-- What a probe's success leaves where the threshold is not reached, and where it is.
record StillProbing (b c : Breaker) (n : ℕ) : Type 0 where
  state : c.state ≡ half_open
  counted : c.half_open_successes ≡ n
  gen : c.generation ≡ b.generation
  cfg : c.cfg ≡ b.cfg

record Healed (b c : Breaker) : Type 0 where
  state : c.state ≡ closed
  failures : c.failures ≡ 0
  gen : c.generation ≡ u64 (b.generation + 1)

settle_probe_succeeds :
    (now n : ℕ) (cc : Execution) (b c : Breaker)
    → cc.tripped ≡ false
    → b.cfg.success_threshold < 2147483648
    → n < b.cfg.success_threshold
    → StillProbing b c n
    → (suc n < b.cfg.success_threshold → StillProbing b (settle now b.generation cc none c) (suc n))
      × (suc n ≡ b.cfg.success_threshold → Healed b (settle now b.generation cc none c))
unfolding settle
settle_probe_succeeds now n cc b c u f l p = (λ m. rw u (ground arith), λ m. rw u (ground arith))

module _ (cc : Execution) (b : Breaker) (untripped : cc.tripped ≡ false)
    (probing : b.state ≡ half_open) (none_yet : b.half_open_successes ≡ 0)
    (fits : b.cfg.success_threshold < 2147483648) where
  settle_all-StillProbing :
      (n : ℕ) → n < b.cfg.success_threshold → StillProbing b (settle_all cc b (successes n)) n
  unfolding settle_all
  settle_all-StillProbing zero l = record {
    state = probing;
    counted = none_yet;
    gen = refl;
    cfg = refl;
  }
  settle_all-StillProbing (suc n) l =
      (settle_probe_succeeds 0 n cc b _ untripped fits (omega arith)
          (settle_all-StillProbing n (omega arith))).0
        l

  settle_all-Healed :
      (n : ℕ) → suc n ≡ b.cfg.success_threshold → Healed b (settle_all cc b (successes (suc n)))
  unfolding settle_all
  settle_all-Healed n e =
      (settle_probe_succeeds 0 n cc b _ untripped fits (omega arith)
          (settle_all-StillProbing n (omega arith))).1
        e

  -- Probes that succeed one after the other, in one epoch of a half-open breaker that has counted no
  -- success yet, none forced to trip by its controller, and for a success threshold below 2 ^ 31, as
  -- the counter is an `int32`: up to one fewer than the success threshold leave the circuit half-open and are counted. The one that reaches it closes the circuit, forgets the
  -- failures and ends the epoch, so that a probe still in flight is stale.
  pub settle_all_heals :
      (n : ℕ)
      → suc n ≡ b.cfg.success_threshold
      → let before = settle_all cc b (successes n) in
        let after = settle_all cc b (successes (suc n)) in
        (before.state ≡ half_open)
        × (before.half_open_successes ≡ n)
        × (after.state ≡ closed)
        × (after.failures ≡ 0)
        × (after.generation ≡ u64 (b.generation + 1))
  settle_all_heals n e =
      let p = settle_all-StillProbing n (omega arith) in
      let h = settle_all-Healed n e in (p.state, p.counted, h.state, h.failures, h.gen)
