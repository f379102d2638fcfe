-- ===== src/Mint.antt =====
-- client/x/mint: new tokens at the beginning of each block. The decimals of the SDK, its checks of
-- names and its keepers are parameters; a coin is an amount with its denomination.
pub mod Params
pub mod Begin
pub mod Queries
