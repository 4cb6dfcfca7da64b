-- ===== src/Store.antt =====
-- src/edge_store.c over the SQLite calls of `World`: each function takes the log and returns it
-- with its calls in front. A statement's bindings are part of the step that uses them.
pub mod Key
pub mod Schema
pub mod Persist
pub mod Latest
pub mod Trace
pub mod Table
pub mod Restore
pub mod Upgrade
pub mod Naming
pub mod Success
pub mod Transaction
