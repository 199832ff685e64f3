-- ===== src/Tests.antt =====
-- Runs of the modelled code at concrete inputs, and the theorems applied there.
pub mod Fixtures
pub mod Executable
mod Commands
mod Relays
mod Properties
mod Sweeps
mod Clients
mod States
mod Snapshots
mod Openings
mod Demos
mod Histories
mod Exchanges
