-- ===== src/Circuitx.antt =====
-- circuitx: the circuit breaker. Its data (Types), its options (Config), its operations (Breaker),
-- its callers (Execute) and many callers at once (System), and what is proved of them.
pub mod Types
pub mod Config
pub mod Breaker
pub mod Execute
pub mod System
pub mod Probes
pub mod Budget
pub mod Hooks
pub mod Laws
pub mod Calls
pub mod Races
mod Examples
