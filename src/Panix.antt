-- ===== src/Panix.antt =====
-- panix: callbacks under panic recovery (Recover), and the growing buffer of the stack capture
-- (Capture).
pub mod Recover
pub mod Capture
mod Examples
