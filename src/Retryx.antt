-- ===== src/Retryx.antt =====
-- retryx: retries with backoff. Its data and options (Config), the delays (Delays) and the loop of
-- `Do` (Loop), and what is proved of them.
pub mod Config
pub mod Delays
pub mod Loop
pub mod Bounds
pub mod Rounds
pub mod Outcomes
pub mod Calm
mod Examples
