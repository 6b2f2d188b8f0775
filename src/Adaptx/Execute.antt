-- ===== src/Adaptx/Execute.antt =====
-- adaptx/adaptx.go: `Acquire`, `TryAcquire`, `Execute` and `TryExecute`, where no other goroutine runs
-- between their own steps but while a call waits. What ends the wait of `Acquire` is an argument.
use urx.Base.{ℕ, ◌-◌, String, Bool, true, false, Option, none, some, if◌then◌else◌}
use urx.Base.Errors.{Error, sentinel, adaptx, closed, nil_func}
use urx.Panix.Recover.{Outcome, safe}
use urx.Adaptx.Types.{Limiter, Draw, LimitChange, Execution}
use urx.Adaptx.Limiter.{reject, ctx_err, take_from, finish_acquire, release}

-- Which case of the `select` goes ahead.
pub data Woken : Type 0 where
  ctx_done : Error → Woken
  closed_ch has_permit : Woken

-- `blocked` is a wait that goes on.
pub data Admission : Type 0 where
  admitted blocked : Admission
  failed : Error → Admission

abbrev pub admission : Limiter × Bool → Limiter × Admission
admission (l, true) = (l, admitted)
admission (l, false) = (l, failed (sentinel adaptx closed))

unfoldable pub with_sem : Option Limiter → Limiter → Limiter × Admission
unfolding finish_acquire
with_sem none l = (l, blocked)
with_sem (some l') l = admission (finish_acquire l')

unfoldable pub select_permit : Woken → Limiter → Limiter × Admission
unfolding ctx_err with_sem
select_permit (ctx_done err) l = (reject l, failed (ctx_err err))
select_permit closed_ch l = (reject l, failed (sentinel adaptx closed))
select_permit has_permit l = with_sem (take_from l.sem l) l

abbrev pub after_ctx : Option Error → Woken → Limiter → Limiter × Admission
after_ctx (some err) woken l = (reject l, failed (ctx_err err))
after_ctx none woken l = select_permit woken l

-- `ctx_now` is the context's error when the call begins.
unfoldable pub acquire : Option Error → Woken → Limiter → Limiter × Admission
unfolding ctx_err select_permit
acquire ctx_now woken l =
    if l.is_shut then (l, failed (sentinel adaptx closed)) else after_ctx ctx_now woken l

abbrev pub try_admission : Option Limiter → Limiter → Limiter × Bool
try_admission none l = (reject l, false)
try_admission (some l') l = finish_acquire l'

unfoldable pub try_acquire : Limiter → Limiter × Bool
unfolding finish_acquire
try_acquire l = if l.is_shut then (l, false) else try_admission (take_from l.sem l) l

-- What a call has when its callback is about to run, or what it returns without it; `no_permit` is
-- the return of `TryExecute` without an error.
pub data Started : Type 0 where
  runs_with : Execution → Started
  refused_with : Error → Started
  no_permit waits : Started

abbrev pub snapshot_of : Limiter → Execution
snapshot_of l = record {
  limit = l.limit;
  in_flight = l.in_flight - 1;
  algorithm = l.cfg.algorithm;
  skipped = false;
}

abbrev pub started : Limiter × Admission → Limiter × Started
started (l, admitted) = (l, runs_with (snapshot_of l))
started (l, failed err) = (l, refused_with err)
started (l, blocked) = (l, waits)

-- `Execute` before the callback; `has_fn` says whether there is one.
unfoldable pub begin_execute : Bool → Option Error → Woken → Limiter → Limiter × Started
unfolding acquire
begin_execute has_fn ctx_now woken l =
    if has_fn
    then started (acquire ctx_now woken l)
    else (l, refused_with (sentinel adaptx nil_func))

abbrev pub try_started : Limiter × Bool → Limiter × Started
try_started (l, true) = (l, runs_with (snapshot_of l))
try_started (l, false) =
    if l.is_shut then (l, refused_with (sentinel adaptx closed)) else (l, no_permit)

abbrev pub try_after_ctx : Option Error → Limiter → Limiter × Started
try_after_ctx (some err) l = (l, refused_with (ctx_err err))
try_after_ctx none l = try_started (try_acquire l)

unfoldable pub begin_try_execute : Bool → Option Error → Limiter → Limiter × Started
unfolding ctx_err try_acquire
begin_try_execute has_fn ctx_now l =
    if l.is_shut
    then (l, refused_with (sentinel adaptx closed))
    else (if has_fn then try_after_ctx ctx_now l else (l, refused_with (sentinel adaptx nil_func)))

abbrev pub is_ok : Option Error → Bool
is_ok none = true
is_ok (some err) = false

-- `releaseAfterExecute`: a skipped call has no latency.
unfoldable pub release_after_execute :
    ℕ → Draw → Bool → ℕ → Option Error → Limiter → Limiter × Option LimitChange
unfolding release
release_after_execute now draw skipped latency err l =
    release now draw (is_ok err) (if skipped then 0 else latency) l

-- `Execute` after the callback has ended, with its operation's name.
unfoldable pub end_execute {ℓ} :
    {A : Type ℓ}
    → A
    → String
    → ℕ
    → Draw
    → Bool
    → ℕ
    → Outcome A
    → Limiter
    → Limiter × A × Option Error
unfolding release_after_execute
end_execute zero_value op now draw skipped latency outcome l =
    let (val, err) = safe zero_value op outcome in
    ((release_after_execute now draw skipped latency err l).0, val, err)
