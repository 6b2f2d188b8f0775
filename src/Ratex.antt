-- ===== src/Ratex.antt =====
-- ratex: the token bucket. Its data (Types), options (Config), bucket operations (Bucket), blocking
-- admission (Wait) and callers (Execute), and what is proved of them.
pub mod Types
pub mod Config
pub mod Bucket
pub mod Wait
pub mod Execute
pub mod Refills
pub mod Rates
pub mod Waiting
pub mod Admitting
pub mod Refunds
mod Examples
