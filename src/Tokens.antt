-- ===== src/Tokens.antt =====
-- services/api/token_store.go: the tokens of boot clients and agents.
pub mod Store
pub mod Lookup
pub mod Use
pub mod Replace
pub mod Rotation
pub mod Once
mod Tests
