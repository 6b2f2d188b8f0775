-- ===== src/Shedx.antt =====
-- shedx: load shedding. Its options (Config), the shedder's methods (Shedder) and many callers of it
-- (Callers), what is proved of them (Admission, Inflight, Slots), and `TryExecute` (Tries).
pub mod Config
pub mod Shedder
pub mod Admission
pub mod Callers
pub mod Inflight
pub mod Slots
pub mod Tries
mod Examples
