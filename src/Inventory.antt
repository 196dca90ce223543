-- ===== src/Inventory.antt =====
-- services/inventory: facts of agents become rows, and their changes an audit log.
pub mod Diff
pub mod Ingest
pub mod Audit
pub mod Retry
mod Tests
