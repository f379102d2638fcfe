-- ===== src/App/Migrations.antt =====
-- client/app/upgrades: the handlers of the upgrades that migrate the state. A handler gives the map of
-- versions back that it was called with.
pub mod Consensus
pub mod Staking
pub mod Virgil
