-- ===== src/Checker.antt =====
-- Package checker (checker/*.go).
pub mod Types
pub mod Runtime
pub mod Taxonomy
pub mod Verdict
pub mod Targets
