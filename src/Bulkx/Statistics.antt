-- ===== src/Bulkx/Statistics.antt =====
-- bulkx/bulkx.go: the statistics of many calls.
use urx.Base.{
  ℕ, ◌+◌, ◌≡◌, inl, inr, refl, ap, ◌∙◌, Bool, Option, none, some, List, [], ◌∷◌, arith, get_elem?,
  count_if, count_if-write, u64, All, All-set, All-get_elem?,
}
use urx.Bulkx.Config.{BulkOption}
use urx.Bulkx.Bulkhead.{Bulkhead, Phase, Wake, advance, new, close}
use urx.Bulkx.Callers.{
  Call, Callers, Event, begin, go, shut, clear_stats, begun, gone_on, go_at, step, run,
}
use urx.Bulkx.Turns.{advance-Turn, arrive-intro}
use urx.Bulkx.Slots.{one_if}
use urx.Bulkx.Counts.{starts}
use urx.Bulkx.Tally.{
  IsFair, Counts, Tallies, timed_out, turned_away, executed, Turn-Tallies, Turn-IsFair,
}

abbrev Counted : Callers → Type 0
Counted c =
    (c.bulkhead.timeouts ≡ u64 (count_if timed_out c.calls))
    × (c.bulkhead.rejected ≡ u64 (count_if turned_away c.calls))
    × (c.bulkhead.executed ≡ u64 (count_if executed c.calls))
    × All (λ (call : Call). IsFair call.phase) c.calls

counted_on :
    (t t' : Bool) (x x' n n' : ℕ)
    → Counts t t' x x'
    → n' + one_if t ≡ n + one_if t'
    → x ≡ u64 n
    → x' ≡ u64 n'
counted_on t t' x x' n n' (inl (e, q)) w h =
    q ∙ h ∙ ap u64 (let s : n ≡ n' = ground (arith, e, w) in s)
counted_on t t' x x' n n' (inr (e, e', q)) w h =
    let s : n' ≡ n + 1 = ground (arith, e, e', w) in omega (arith, q, h, s)

-- No one sets the statistics back.
abbrev pub KeepsStats : Event → Type 0
KeepsStats clear_stats = ⊥
KeepsStats _ = Unit

moved-Counted :
    (i : ℕ) (call : Call) (x : Bulkhead × Phase) (c : Callers)
    → get_elem? c.calls i ≡ some call
    → Tallies call.mode call.phase c.bulkhead x
    → IsFair x.1
    → Counted c
    → Counted (gone_on i call.mode x c.calls)
moved-Counted i call (b, p) c f (t, r, e) fair (vt, vr, ve, all) =
    let next : Call = record { mode = call.mode; phase = p } in
    let written = λ (test : Call → Bool). count_if-write test c.calls i call next f in
    (
      counted_on (timed_out call) (timed_out next) _ _ _ _ t (written timed_out) vt,
      counted_on (turned_away call) (turned_away next) _ _ _ _ r (written turned_away) vr,
      counted_on (executed call) (executed next) _ _ _ _ e (written executed) ve,
      All-set (λ (k : Call). IsFair k.phase) c.calls i fair all,
    )

go_at-Counted :
    (i : ℕ) (done : Bool) (w : Wake) (o : Option Call) (c : Callers)
    → get_elem? c.calls i ≡ o
    → Counted c
    → Counted (go_at i done w o c)
unfolding go_at
go_at-Counted i done w none c f v = v
go_at-Counted i done w (some call) c f v =
    let fair = All-get_elem? (λ (k : Call). IsFair k.phase) c.calls i call f v.3 in
    let turn = advance-Turn call.mode done w call.phase c.bulkhead in
    moved-Counted i call (advance call.mode done w call.phase c.bulkhead) c f
      (Turn-Tallies turn fair) (Turn-IsFair turn fair) v

step-Counted : (e : Event) (c : Callers) → KeepsStats e → Counted c → Counted (step e c)
unfolding step close
step-Counted (begin m done) c k (t, r, e, all) =
    arrive-intro (λ x. Counted (begun m x c.calls)) m done c.bulkhead (t, r, e, (tt, all))
      (t, omega (arith, r), e, (tt, all)) (t, r, e, (tt, all)) (t, r, e, (tt, all))
step-Counted (go i done w) c k v = go_at-Counted i done w (get_elem? c.calls i) c refl v
step-Counted shut c k v = v
step-Counted clear_stats c k v = absurd k

run-Counted : (es : List Event) (c : Callers) → All KeepsStats es → Counted c → Counted (run es c)
run-Counted [] c k v = v
run-Counted (e ∷ es) c k v = run-Counted es (step e c) k.1 (step-Counted e c k.0 v)

-- For every interleaving of the calls' atomic operations from a new bulkhead, whatever options it
-- got, where nobody resets the statistics, in the arithmetic of 64 bits: the timeouts are the
-- calls that end with ErrTimeout, the rejections those that end with another error or as busy,
-- save for the calls that found the bulkhead closed when they began, and those of TryExecute that
-- found their context done then, and the executions are the calls of Execute and TryExecute whose
-- callback has begun. A call that still has to leave the queue counts as one that ends.
pub run-statistics :
    (es : List Event) (opts : List (Option BulkOption))
    → All KeepsStats es
    → let c = run es (starts opts) in
      (c.bulkhead.timeouts ≡ u64 (count_if timed_out c.calls))
      × (c.bulkhead.rejected ≡ u64 (count_if turned_away c.calls))
      × (c.bulkhead.executed ≡ u64 (count_if executed c.calls))
unfolding new
run-statistics es opts k =
    let v = run-Counted es (starts opts) k (refl, refl, refl, tt) in (v.0, v.1, v.2)
