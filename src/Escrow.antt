-- ===== src/Escrow.antt =====
-- contracts/escrow/src: the two-party token escrow, a module for each part.
pub mod Types
pub mod Storage
pub mod Fees
pub mod Calls
pub mod Invariant
pub mod Releases
pub mod Settlements
pub mod Resolutions
pub mod Creation
pub mod Administration
pub mod Histories
pub mod Returns
mod Tests
