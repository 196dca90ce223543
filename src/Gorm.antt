-- ===== src/Gorm.antt =====
-- The part of gorm and PostgreSQL that the services rely on, as an interface: one table, its
-- statements, and what they are documented to do.
pub mod Table
pub mod InMemory
pub mod Rows
pub mod Transaction
pub mod Keyed
pub mod Flaky
