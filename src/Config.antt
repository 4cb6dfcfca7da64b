-- ===== src/Config.antt =====
-- src/edge_config.c: the loader of .edge templates, its checks, and the wiring of pointers.
pub mod Fields
pub mod Loader
pub mod Validate
pub mod Resolve
pub mod Wire
pub mod Wired
pub mod Print
pub mod Complete
pub mod Accept
pub mod Bounds
pub mod Invariant
pub mod Total
pub mod Search
pub mod Resolved
pub mod Cycles
pub mod Correct
pub mod Settled
pub mod Load
