-- ===== src/Panix/Capture.antt =====
-- panix/panix.go, `captureStackLimited`: the buffer doubles until the trace fits or the limit is
-- reached. `runtime.Stack` fills the buffer with a prefix of the trace, so of it only the lengths
-- matter here: the trace has `trace` bytes. The loop runs on fuel; none means that it ran out.
use urx.Base.{
  ℕ, zero, suc, ◌-◌, ◌*◌, ◌≤◌, ◌<◌, min, ◌≡◌, Option, none, some, ltb, leb, if◌then◌else◌, arith,
}

abbrev pub default_stack_size : ℕ
default_stack_size = 4096

abbrev pub max_stack_size : ℕ
max_stack_size = 65536

-- The length of the slice that the loop returns, from a buffer of `len` bytes.
unfoldable pub capture_loop : ℕ → ℕ → ℕ → ℕ → Option ℕ
capture_loop zero cap trace len = none
capture_loop (suc fuel) cap trace len =
    let n = min len trace in
    let again = capture_loop fuel cap trace (min (len * 2) cap) in
    if ltb n len then some n else if leb cap len then some len else again

unfoldable pub capture_stack_limited : ℕ → ℕ → ℕ → Option ℕ
unfolding capture_loop
capture_stack_limited fuel cap trace = capture_loop fuel cap trace (min default_stack_size cap)

capture_loop_lem :
    (fuel cap trace len : ℕ)
    → 0 < len
    → len ≤ cap
    → cap - len < fuel
    → capture_loop fuel cap trace len ≡ some (min trace cap)
unfolding capture_loop
capture_loop_lem zero cap trace len p q f = absurd (omega arith)
capture_loop_lem (suc fuel) cap trace len p q f =
    ground (arith, capture_loop_lem fuel cap trace (min (len * 2) cap))

-- For a limit above 0 the capture ends, within as many rounds as the limit has bytes, and returns
-- the whole trace if that fits the limit and exactly the limit's bytes of it otherwise.
pub capture_stack_limited_lem :
    (fuel cap trace : ℕ)
    → 0 < cap
    → cap ≤ fuel
    → capture_stack_limited fuel cap trace ≡ some (min trace cap)
unfolding capture_stack_limited
capture_stack_limited_lem fuel cap trace p f =
    capture_loop_lem fuel cap trace (min default_stack_size cap) (omega arith) (omega arith)
      (omega arith)
