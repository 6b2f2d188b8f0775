-- ===== src/Adaptx.antt =====
-- adaptx: adaptive concurrency limits. Its options (Config), the data and the control laws (Types,
-- Laws), the limiter's methods (Limiter, Execute) and many callers of it (Callers), and what is
-- proved of them.
pub mod Config
pub mod Usable
pub mod Types
pub mod Control
pub mod Window
pub mod Limiter
pub mod Execute
pub mod Callers
pub mod Moves
pub mod Records
pub mod Holds
pub mod Releases
pub mod Steps
pub mod Permits
pub mod Growth
pub mod Jitter
pub mod Backoff
pub mod Races
pub mod Calls
pub mod Stats
pub mod Summaries
pub mod Rings
pub mod Readings
mod Examples
