-- ===== src/Lib.antt =====
-- urx is a Go module of independent runtime packages. This library models the packages' own state
-- machines and policies and proves what makes them correct. Paths below are from the repository's
-- root.
--
-- Parts and files:
--   Base (Tests, Lists, Slices, Words, Int, Fractions, Floats, Errors): shared names; Go's fixed-width
--     integers as bit patterns; floats as exact fractions, and the rounding of a sum; Go errors as a data type, with
--     `errors.Is` for a context's cancellation and `errors.As` for a recovered panic.
--   Panix: panix/panix.go and panix/errors.go. Recover has `Safe` and `SafeVoid` over the ways in
--     which a Go call can end, Capture the buffer loop of `captureStackLimited`.
--   Circuitx: circuitx/circuitx.go, types.go and options.go. Types, Config and Breaker have the
--     data, the options and the methods; Execute has `Execute`, `TryExecute` and `executeRun`;
--     System runs the methods of many callers in any order, each method as one step (Probes,
--     Budget and Hooks prove invariants of it, Laws and Calls say what single operations and
--     whole calls do); Races runs the admission one atomic operation at a time.
--   Ratex: ratex/ratex.go, types.go and options.go. Bucket has the methods that do not block,
--     Wait `waitFor` and `acquire`, Execute the callers; Refills, Rates, Waiting and Refunds
--     prove what they do to the balance of tokens, Admitting when a blocking call comes back.
--   Retryx: retryx/retryx.go, types.go and options.go. Delays has `backoff` and `delayAfter`,
--     Loop has `Do` and its helpers; Bounds is about the delays, Rounds gives the ways of one
--     pass as rules, Outcomes and Calm are about whole calls.
--   Lrux: lrux/lrux.go, types.go, options.go, compute.go, sharded.go and hash.go. Links has the
--     intrusive list over the addresses of its nodes, and Chains, Skips, Relinks and Lists show
--     which list it stands for; Types, Cache and Sweeps have the cache's state and its methods over
--     that list, Ops sequences of them, Config the options. Nodes, Evolution, Moves and Steps are
--     about keys and order, Held, Reports and Conservation about the values, Bounds, Capacity and
--     Evictions about the capacity, Reads about gets. Compute has `GetOrCompute`, with the
--     single-flight group as an argument, Computed is about whole calls of it, and Parts has the parts
--     of a call between which others may step, which Ops takes as operations (Closing, Insertions,
--     Sizes and Composed are about them). Sharded has the cache split by
--     the hash of the keys, ShardedOps sequences of its methods and what a shard is to get of them,
--     which Placing, Batches and Shards prove, Widths is about the number of the shards.
--   Shedx: shedx/shedx.go, types.go and options.go. Shedder has the methods and the two ends of
--     `Execute`; Admission is about `admits`, Callers runs the methods of many callers in any
--     order (Inflight proves an invariant of it), Slots is about a call of `Execute`,
--     Tries has `TryExecute` and the statistics.
--   Adaptx: adaptx/adaptx.go, types.go and options.go. Types, Config, Control (the control laws and
--     the change of the limit), Window (samples and windows), Limiter, Execute and Stats have the
--     data and the methods; Callers runs the parts of the methods of many callers in any order
--     (Moves, Records, Holds, Releases, Steps and Permits prove an invariant of it, Races shows what
--     a reset in between does). Growth, Backoff and Jitter are about the control laws, Calls about a
--     whole call, Rings, Readings and Summaries about the samples.
--   Bulkx: bulkx/bulkx.go, types.go and options.go. Bulkhead has a call of `Acquire`, `Execute` or
--     `TryExecute` as its atomic operations, Turns the ways they can go as a step relation, Callers
--     runs those of many calls in any order (Slots and Counts are about the slots, Tally and
--     Statistics about the counters, Shutdown about `Close`), Alone is about a call that no other
--     meets, Execute has what a call returns.
--   Quotax: quotax/quotax.go and options.go. Table has the maps of the shards as one list of
--     entries, Quota the methods, each of whose buckets has a limiter of Ratex, Ops sequences of
--     them, Waits the blocking calls, with the operations of others while they sleep, and Execute
--     `Execute` and `TryExecute`. Keys is about the count of keys, Isolation about the requests of
--     one key, Pins about a key that a waiter has pinned, Balance and Returns about the pins of a
--     blocking call, Resets about what another goroutine does during `Reset`.
--
-- Conventions: a method that changes an object returns the new record. The clock's reading and what
-- a callback does are arguments: what surrounds the passes of a loop (the context, the clock, the
-- random source, other callers) is a list or a function of the pass. `uint64` and `int32` counters
-- keep their wrap-around; sizes and the shedder's in-flight count, which is exact, do not come near
-- theirs. A hook that runs under recover is a log of its calls. Floats are exact but for the
-- credit of AIMD, whose sums are rounded as float64 rounds them: a rate is a fraction, and a balance of tokens is counted in the fractions of a token that the rate brings in
-- a nanosecond. A goroutine's call is a sequence of steps between which others may step.
--
-- Fuel: the loop of `waitFor` runs over a list of rounds, `Do` over its number of attempts. The
-- loop of `captureStackLimited` takes fuel; more rounds than the limit has bytes are enough. The
-- loops that make room in the cache take as much fuel as there are entries, and the doubling in
-- `nextPow2` as much as its argument, which is enough.
--
-- Not modelled: the text of errors, stack traces and JSON tags; hedgex, toutx, warmupx, fallx,
-- poolx and healthx, whose core is goroutines that race over channels and timers (or, in warmupx, a
-- curve in floating point); cfgx, clix and envx, which are reflection, files and text; signalx and
-- syncx, glue over the operating system and the standard library; the test support in internal.
pub mod Base
pub mod Lrux
pub mod Panix
pub mod Circuitx
pub mod Ratex
pub mod Retryx
pub mod Shedx
pub mod Adaptx
pub mod Bulkx
pub mod Quotax
