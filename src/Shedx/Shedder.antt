-- ===== src/Shedx/Shedder.antt =====
-- shedx/shedx.go: the shedder. The loop of `tryReserve` is one step at its last pass, the one whose
-- swap succeeds or that refuses; `shut` says whether `Close` came between that swap and the look of
-- `commitReservation`.
use urx.Base.{
  ℕ, ◌+◌, ◌-◌, ◌*◌, Bool, true, false, Option, none, some, List, if◌then◌else◌, ltb, leb, u64,
  String,
}
use urx.Base.Errors.{Error, sentinel, wrap, shedx, closed, nil_func, cancelled, rejected}
use urx.Panix.Recover.{Outcome, safe}
use urx.Shedx.Config.{Config, Priority, low, normal, critical, ShedOption, new_config}

pub record Shedder : Type 0 where
  pub cfg : Config
  pub inflight : ℕ
  pub admitted : ℕ
  pub shed : ℕ
  pub degraded : ℕ
  pub is_shut : Bool
  pub shedding : Bool

unfoldable pub new : ℕ → List (Option ShedOption) → Shedder
new grain opts = record {
  cfg = new_config grain opts;
  inflight = 0;
  admitted = 0;
  shed = 0;
  degraded = 0;
  is_shut = false;
  shedding = false;
}

-- `load < part / scale` for the load `n / capacity`.
abbrev pub load_below : Config → ℕ → ℕ → Bool
load_below c n part = ltb (n * c.scale) (part * c.capacity)

abbrev pub cutoff_of : Config → Priority → ℕ
cutoff_of c low = c.cutoff_low
cutoff_of c normal = c.cutoff_normal
cutoff_of c _ = c.cutoff_high

-- `(load - threshold) / band < cutoff`, for a load at the threshold or above.
unfoldable pub apply_cutoffs : Config → ℕ → Priority → Bool
apply_cutoffs c n p =
    if leb c.scale c.threshold
    then false
    else ltb ((n * c.scale - c.threshold * c.capacity) * c.scale)
        (cutoff_of c p * ((c.scale - c.threshold) * c.capacity))

abbrev pub is_critical : Priority → Bool
is_critical critical = true
is_critical _ = false

-- The part of `admits` for a request that is not critical: the answer, and whether the shedder is
-- shedding afterwards.
unfoldable pub admits_below : Config → Bool → ℕ → Priority → Bool × Bool
unfolding apply_cutoffs
admits_below c shedding n p =
    if ltb 0 c.hysteresis
    then (if shedding
        then (if load_below c n (c.threshold - c.hysteresis)
            then (true, false)
            else (if load_below c n c.threshold
                then (false, true)
                else (apply_cutoffs c n p, true)))
        else (if load_below c n c.threshold then (true, false) else (apply_cutoffs c n p, true)))
    else (if load_below c n c.threshold then (true, shedding) else (apply_cutoffs c n p, shedding))

unfoldable pub admits : Priority → ℕ → Shedder → Shedder × Bool
unfolding admits_below
admits p n s =
    let (ok, shedding) = admits_below s.cfg s.shedding n p in
    if is_critical p then (s, true) else (record s { shedding = shedding }, ok)

unfoldable pub allow : Priority → Shedder → Shedder × Bool
unfolding admits
allow p s = if s.is_shut then (s, false) else admits p (s.inflight + 1) s

-- A reservation: the count with it, a refusal, or the shedder is closed.
pub data Reservation : Type 0 where
  reserved : ℕ → Reservation
  refused shut_down : Reservation

-- After the swap: rolled back where `Close` came in between.
abbrev pub commit_reservation : Bool → ℕ → Shedder → Shedder × Reservation
commit_reservation true next s = (record s { inflight = s.inflight - 1; is_shut = true }, shut_down)
commit_reservation false next s = (s, reserved next)

unfoldable pub try_reserve : Bool → Priority → Shedder → Shedder × Reservation
unfolding admits
try_reserve shut p s =
    let next = s.inflight + 1 in
    let (s', ok) = admits p next s in
    if s.is_shut
    then (s, shut_down)
    else (if ok
        then commit_reservation shut next (record s' { inflight = next })
        else (s', refused))

-- The counters after a reservation.
abbrev pub count_admission : Shedder × Reservation → Shedder × Reservation
count_admission (s, reserved n) = (record s { admitted = u64 (s.admitted + 1) }, reserved n)
count_admission (s, refused) = (record s { shed = u64 (s.shed + 1) }, refused)
count_admission (s, shut_down) = (s, shut_down)

-- `Acquire`; the token is the reservation.
unfoldable pub acquire : Bool → Priority → Shedder → Shedder × Reservation
unfolding try_reserve
acquire shut p s = count_admission (try_reserve shut p s)

-- `Token.Release`, with the token's `done`.
unfoldable pub release : Bool → Shedder → Shedder × Bool
release done s = if done then (s, true) else (record s { inflight = s.inflight - 1 }, true)

unfoldable pub reset_stats : Shedder → Shedder
reset_stats s = record s { admitted = 0; shed = 0; degraded = 0 }

unfoldable pub close : Shedder → Shedder
close s = record s { is_shut = true }

-- What `Execute` returns where the callback does not run, and what it runs with.
pub data Started : Type 0 where
  refused_with : Error → Started
  runs_with : ℕ → Started

abbrev pub started : Shedder × Reservation → Shedder × Started
started (s, reserved n) = (s, runs_with n)
started (s, refused) = (s, refused_with (sentinel shedx rejected))
started (s, shut_down) = (s, refused_with (sentinel shedx closed))

-- The part of `Execute` before the callback; `has_fn` says whether there is one.
unfoldable pub begin_execute : Bool → Option Error → Bool → Priority → Shedder → Shedder × Started
unfolding acquire
begin_execute has_fn ctx_err shut p s =
    if s.is_shut
    then (s, refused_with (sentinel shedx closed))
    else if has_fn
    then elim ctx_err [
      | some cause ↦ (s, refused_with (wrap (sentinel shedx cancelled) cause))
      | none ↦ started (acquire shut p s)
    ]
    else (s, refused_with (sentinel shedx nil_func))

-- The end of `runAfterAdmit`: `skipped` and `degrades` are what the callback called.
unfoldable pub end_execute {ℓ} :
    {A : Type ℓ} → A → String → Bool → Bool → Outcome A → Shedder → Shedder × A × Option Error
unfolding release
end_execute zero_value op skipped degrades outcome s =
    let counted = record s { degraded = if degrades then u64 (s.degraded + 1) else s.degraded } in
    let (val, err) = safe zero_value op outcome in ((release skipped counted).0, val, err)
