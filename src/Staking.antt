-- ===== src/Staking.antt =====
-- client/x/evmstaking: the module that turns events of the staking contract into calls of the
-- staking modules, and matured or claimed tokens into withdrawals on the execution layer.
pub mod Events
pub mod Types
pub mod External
pub mod State
pub mod Withdrawals
pub mod Handlers
pub mod Dispatch
pub mod Queries
pub mod Params
pub mod Rewards
pub mod Unstake
pub mod Sweep
pub mod Ubi
pub mod Block
pub mod Genesis
