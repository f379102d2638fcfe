-- ===== src/Cli.antt =====
-- client/cmd: the commands that send transactions to the staking contract.
pub mod World
pub mod KeyUtils
pub mod Transaction
pub mod Queries
pub mod Validate
pub mod Commands
pub mod Run
pub mod Reads
pub mod Sends
pub mod Intends
pub mod Fees
pub mod Once
pub mod Minimum
pub mod Rates
