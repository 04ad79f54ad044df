-- ===== src/Tests.antt =====
-- Runs over a cluster in memory, and the theorems at concrete data.
pub mod Memory
pub mod Laws
mod Scope
mod Program
mod Stores
pub mod Serving
mod Settled
mod Wiring
mod Checks
mod Calls
mod Secrets
mod Limits
