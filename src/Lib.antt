-- ===== src/Lib.antt =====
-- The consensus client of Story: the Cosmos modules x/evmstaking, x/evmengine and x/mint of client/x,
-- with the queue, the error codes, the keys and the upgrade heights that they use, what the application
-- of client/app does before them (the router of proposals, the pre-blocker, the upgrades' handlers and
-- the store loaders), and the commands of client/cmd that validators and delegators run.
--
-- The program. A CometBFT block carries one message with a payload of the execution layer and the
-- logs of the payload before. x/evmengine proposes payloads (client/x/evmengine/keeper/abci.go),
-- checks those of others (proposal_server.go), and finalizes them (msg_server.go): it takes the
-- payload's withdrawals from the queues of x/evmstaking, pushes the payload to the execution client,
-- hands the logs to x/evmstaking (keeper.go), to its upgrades (upgrades.go) and to its basic income
-- (ubi.go), and moves the execution head (db.go). x/evmstaking turns the logs of the staking contract
-- into calls of the staking module, and at the end of each block queues matured unbondings, rewards
-- and basic income as withdrawals (client/x/evmstaking/keeper/withdraw.go, ubi.go, abci.go). Before a
-- block's modules run, the pre-blocker schedules the forks and the pending upgrade that are due; x/mint
-- then mints the block's inflation. A proposal reaches x/evmengine through the router
-- (client/app/prouter.go), which wants a quorum of votes and one bare transaction. A command of
-- client/cmd checks its flags against the staking contract and the node's HTTP server, and sends one
-- transaction to the staking contract, whose logs then reach x/evmstaking.
--
-- The files, by the code they model:
--   Queue         client/collections/queue.go
--   ErrCode, Errors    lib/errors
--   Netconf       lib/netconf/upgrades.go and chains.go
--   Evm           client/x/evmengine/types/tx.go
--   Staking       client/x/evmstaking: Events, Types, State (data), External (what it calls),
--                 Withdrawals (withdrawal_queue.go, reward_queue.go), Handlers (the ten handlers),
--                 Dispatch (ProcessStakingEvents), Params, Rewards, Unstake, Sweep (withdraw.go), Ubi,
--                 Block (abci.go), Genesis, Queries (grpc_query.go)
--   Engine        client/x/evmengine: Types, State (data, db.go), Convert (types/convert.go), Payload
--                 (parseAndVerifyProposedPayload), Withdrawals (compareWithdrawals), Retry
--                 (helpers.go), Events (evmmsgs.go), Proposal, Finalize, Build (abci.go), Upgrades, Ubi,
--                 Genesis (params.go, genesis.go), Queries (grpc_query.go)
--   App           client/app: Abci (FinalizeBlock of abci.go), Votes, Tx, Router (prouter.go), Forks
--                 (upgrades.go, PreBlocker of app.go), Loaders (upgrades.go), Migrations (upgrades/singularity/virgil,
--                 upgrades/v_1_2_0, upgrades/polybius)
--   Mint          client/x/mint: Params (types/params.go), Begin (keeper), Queries (grpc_query.go)
--   Keys          client/x/evmstaking/keeper/keys.go, lib/k1util, lib/cast
--   Cli           client/cmd: World (the flags and what a command calls), KeyUtils (key_utils.go),
--                 Transaction (transaction.go), Queries and Validate (flags.go), Commands and Run
--                 (validator.go)
-- Base and Action are shared: native numbers, lists, and calls with their outcomes. Tests holds
-- concrete blocks and queues.
--
-- How the code is modelled. A call takes a state to an outcome, which is a value, an error or a
-- panic, and a state (Action); its effects before a failure stay. A function has the name of the
-- Go function in snake case. `uint64` and `uint32` are native numbers with their wrap-around
-- written out; where the sign of an `int64` matters it is given by its 64 bits (Base/Words). An
-- error is the list of the values that `errors.Is` finds in its tree. Messages, logging and
-- metrics are left out. The Cosmos keepers, the codecs, the contracts' parsers and the execution
-- client are records of functions that every definition takes (Staking/External, Staking/Dispatch,
-- Engine/State), over one type for all their state. A read of a store fails only where the item is
-- missing or does not decode.
--
-- Loops. All are structural recursion, but `retryForever`: it runs on fuel and gives `none` where the
-- fuel is out. Fuel above the number of attempts that fail is enough.
--
-- Not modelled: the module descriptors, the registration of the queries' servers, the wiring of the
-- application and the HTTP server, which move data in and out; of the
-- commands the binding of flags, the files of keys with their encryption and what is printed; the clock
-- of PrepareProposal; the number of attempts of a canceled context; the handler of Terence, which does
-- nothing, and the examples of client/app/upgrades/historical.go. The generated bindings of the contracts
-- are parameters.
pub mod Base
pub mod ErrCode
pub mod Errors
pub mod Action
pub mod Queue
pub mod Evm
pub mod Cli
pub mod Keys
pub mod Netconf
pub mod Staking
pub mod Engine
pub mod App
pub mod Mint
pub mod Tests
