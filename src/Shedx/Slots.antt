-- ===== src/Shedx/Slots.antt =====
-- shedx/shedx.go: the slot of a call of `Execute`.
use urx.Base.{
  ℕ, ◌+◌, ◌≡◌, sym, ap, ◌∙◌, String, Bool, true, false, none, arith, if_false, if_true, Bool-cases,
  inl, inr,
}
use urx.Base.Errors.{sentinel, shedx, closed}
use urx.Panix.Recover.{Outcome}
use urx.Shedx.Config.{Priority, IsUsable}
use urx.Shedx.Shedder.{
  Shedder, Reservation, reserved, refused, shut_down, try_reserve, acquire, release, Started,
  refused_with, runs_with, started, begin_execute, end_execute,
}
use urx.Shedx.Inflight.{Reserves, try_reserve-Reserves, count_admission-Reserves}

started-inflight :
    (p : Priority) (s : Shedder) (x : Shedder × Reservation) (n : ℕ)
    → Reserves p s x
    → (started x).1 ≡ runs_with n
    → (started x).0.inflight ≡ s.inflight + 1
started-inflight p s (s', reserved m) n o e = o.1
started-inflight p s (s', refused) n o e = cc
started-inflight p s (s', shut_down) n o e = cc

begin-inflight :
    (closes : Bool) (p : Priority) (s : Shedder) (n : ℕ)
    → IsUsable s.cfg
    → (begin_execute true none closes p s).1 ≡ runs_with n
    → (begin_execute true none closes p s).0.inflight ≡ s.inflight + 1
unfolding begin_execute acquire
begin-inflight closes p s n u e = elim (Bool-cases s.is_shut) [
  | inl k ↦
      let shut =
        if_true s.is_shut (s, refused_with (sentinel shedx closed)) (started (acquire closes p s))
          k in
      let r = sym (ap (λ (x : Shedder × Started). x.1) shut) ∙ e in cc
  | inr k ↦
      let opened =
        if_false s.is_shut (s, refused_with (sentinel shedx closed)) (started (acquire closes p s))
          k in
      ap (λ (x : Shedder × Started). x.0.inflight) opened
      ∙ started-inflight p s (acquire closes p s) n
          (count_admission-Reserves p s (try_reserve closes p s)
            (try_reserve-Reserves closes p s u))
          (sym (ap (λ (x : Shedder × Started). x.1) opened) ∙ e)
]

-- A call of `Execute` whose callback runs holds one slot until the callback ends, in a panic too, or
-- calls `SkipSlot`, and gives it back once: the count is then what it was before the call, where no
-- others come and go.
pub execute-inflight {ℓ} :
    {A : Type ℓ} (zero_value : A) (op : String) (closes degrades : Bool) (outcome : Outcome A)
    (p : Priority) (s : Shedder) (n : ℕ)
    → IsUsable s.cfg
    → (begin_execute true none closes p s).1 ≡ runs_with n
    → let s' = (begin_execute true none closes p s).0 in
      (s'.inflight ≡ s.inflight + 1)
      × ((end_execute zero_value op false degrades outcome s').0.inflight ≡ s.inflight)
      × ((end_execute zero_value op true degrades outcome (release false s').0).0.inflight
          ≡ s.inflight)
unfolding end_execute release
execute-inflight zero_value op closes degrades outcome p s n u e =
    let h = begin-inflight closes p s n u e in (h, omega (arith, h), omega (arith, h))
