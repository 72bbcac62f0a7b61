-- ===== src/Tests.antt =====
-- Concrete runs of the theorems.
pub mod Master
pub mod Stores
pub mod Bot
pub mod Snapshots
pub mod Sources
pub mod Checks
pub mod Whole
