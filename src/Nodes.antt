-- ===== src/Nodes.antt =====
-- Package nodes (nodes/*.go): the remote checker nodes, as the master keeps them.
pub mod Config
pub mod Settings
pub mod Store
pub mod SubsStore
pub mod Report
pub mod Registry
