-- ===== src/Provision.antt =====
-- The process provisioner of the hub (apps/hub/src/provisioners/process.ts): a durable store of
-- allocations, the units (directories and processes) that stand for them, and the two requests,
-- ensure and destroy.
pub mod Store
pub mod Refs
pub mod Units
pub mod Requests
mod Frame
pub mod Acceptance
pub mod Stopping
mod Accounted
pub mod Destruction
pub mod Missed
pub mod InFlight
pub mod Coalesced
pub mod Progress
mod CallTests
mod Samples
mod Tests
