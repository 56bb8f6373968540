-- ===== src/Solvency.antt =====
-- Every game holds the stakes that it owes.
pub mod Safe
pub mod Calls
pub mod Invariant
pub mod Joining
pub mod Participating
pub mod Configuring
pub mod Migrating
pub mod Reachable
pub mod Trading
pub mod Settling
pub mod Creating
