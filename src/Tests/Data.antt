-- ===== src/Tests/Data.antt =====
-- A node at height 100 of the test network, whose other modules answer with constants.
mod StakingNode
mod EngineNode
pub use StakingNode.*
pub use EngineNode.*
