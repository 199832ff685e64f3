-- ===== src/Client.antt =====
-- src/client.rs: the single-peer Olm client.
pub mod Olm
pub mod PreKeys
pub mod State
pub mod Bundles
pub mod Opening
pub mod History
