-- ===== src/App.antt =====
-- client/app: what the application adds to its modules, on the path of a block.
pub mod Votes
pub mod Tx
pub mod Router
pub mod Loaders
pub mod Forks
pub mod Migrations
pub mod Abci
