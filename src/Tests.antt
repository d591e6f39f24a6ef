-- ===== src/Tests.antt =====
-- Runs of the model on small nodes, and the theorems at concrete inputs.
pub mod Data
pub mod Allocation
pub mod Locking
pub mod Nodes
pub mod Puts
pub mod Reads
pub mod Index
pub mod Formats
pub mod Network
