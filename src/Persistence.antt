-- ===== src/Persistence.antt =====
-- src/persistence/ and src/companion.rs: the encrypted client-state store.
pub mod Companion
pub mod Envelope
pub mod Catalog
pub mod Rows
pub mod StateStore
pub mod Header
pub mod Commit
pub mod Stale
pub mod Reopen
pub mod Create
pub mod History
