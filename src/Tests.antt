-- ===== src/Tests.antt =====
-- Concrete blocks, queues and payloads, and each theorem applied to them.
mod Data
mod Queues
mod Trace
mod Blocks
mod App
mod Mint
mod Operators
mod Survival
mod Migrations
mod Unstakes
mod Proposal
mod Keys
mod Cli
mod Block
