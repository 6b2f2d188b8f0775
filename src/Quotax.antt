-- ===== src/Quotax.antt =====
-- quotax: quotas by key over ratex. Its options (Config), the table of buckets (Table), the methods
-- (Quota), sequences of them (Ops), the calls that block (Waits) and those that run a callback
-- (Execute), and what is proved of them (Keys, Isolation, Pins, Returns, Resets).
pub mod Config
pub mod Table
pub mod Quota
pub mod Tables
pub mod Shards
pub mod Ops
pub mod Keys
pub mod Resets
pub mod Isolation
pub mod Gates
pub mod Others
pub mod Pins
pub mod Waits
pub mod Execute
pub mod Balance
pub mod Returns
mod Examples
mod CallExamples
