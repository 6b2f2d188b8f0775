-- ===== src/Bulkx.antt =====
-- bulkx: bulkheads. Its options (Config), the atomic operations of a call (Bulkhead) and the ways
-- they can go (Turns), many callers (Callers), what a call returns (Execute), and what is proved of
-- them (Slots, Counts, Tally, Statistics, Shutdown, Alone).
pub mod Config
pub mod Bulkhead
pub mod Callers
pub mod Turns
pub mod Slots
pub mod Counts
pub mod Shutdown
pub mod Alone
pub mod Execute
pub mod Tally
pub mod Statistics
mod Examples
