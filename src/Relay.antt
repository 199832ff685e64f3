-- ===== src/Relay.antt =====
-- src/relay.rs: the store-and-forward relay.
pub mod Store
pub mod Sql
pub mod Checks
pub mod Success
pub mod Register
pub mod Enqueue
pub mod Fetch
pub mod Acknowledge
pub mod Remove
pub mod Effects
pub mod Run
pub mod Authentic
pub mod Delivery
pub mod Retired
pub mod Retention
pub mod Replay
pub mod Tombstones
pub mod Retry
pub mod Disjoint
pub mod Removal
pub mod Ddl
pub mod Manifest
pub mod Schema
pub mod Progress
pub mod Exchange
pub mod Spec
pub mod Opening
