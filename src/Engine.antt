-- ===== src/Engine.antt =====
-- client/x/evmengine: the blocks of the execution layer as proposed and finalized payloads.
pub mod Types
pub mod Convert
pub mod State
pub mod Payload
pub mod Withdrawals
pub mod Retry
pub mod Upgrades
pub mod Queries
pub mod Ubi
pub mod Events
pub mod Proposal
pub mod Finalize
pub mod Build
pub mod Genesis
