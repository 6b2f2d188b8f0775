-- ===== src/Lrux.antt =====
-- lrux: the cache. The intrusive list (Links) stands for a list of nodes (Chains, Skips, Relinks,
-- Lists); over such a list the cache's data (Types), its operations (Cache, Sweeps), computed values
-- (Compute, Computed, Parts, Composed) and sequences of operations (Ops), and what is proved of
-- them: the order of the nodes (Nodes, Evolution, Moves, Steps), the values (Held, Reports,
-- Conservation), the capacity (Bounds, Sizes, Capacity, Evictions), all of these for computed values
-- (Insertions), the end (Closing), and gets (Reads); the options (Config); and the cache in shards
-- (Sharded, ShardedOps, Placing, Batches, Shards, Widths).
pub mod Links
pub mod Chains
pub mod Skips
pub mod Relinks
pub mod Lists
pub mod Types
pub mod Cache
pub mod Sweeps
pub mod Ops
pub mod Nodes
pub mod Evolution
pub mod Moves
pub mod Steps
pub mod Held
pub mod Reports
pub mod Conservation
pub mod Bounds
pub mod Capacity
pub mod Evictions
pub mod Reads
pub mod Compute
pub mod Computed
pub mod Parts
pub mod Closing
pub mod Insertions
pub mod Sizes
pub mod Composed
pub mod Config
pub mod Sharded
pub mod Placing
pub mod ShardedOps
pub mod Batches
pub mod Shards
pub mod Widths
mod Examples
mod CallExamples
mod ShardExamples
