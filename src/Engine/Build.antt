-- ===== src/Engine/Build.antt =====
-- client/x/evmengine/keeper/abci.go: the proposer's side, `PrepareProposal`, `PostFinalize` and
-- `startBuild`, and the optimistic payload and `isNextProposer` of keeper.go. The clock is left out:
-- the delay before a payload is fetched, the timeout of a proposal, and `UpdatedAt`.
pub mod Optimistic
pub mod Peeked
pub mod Promise
pub mod Message
pub mod Proposed
use story.Base.{
  ℕ, ◌+◌, ◌*◌, ◌/◌, ◌%◌, Bool, true, false, not, Option, none, some, List, [], ◌∷◌, ◌++◌, length,
  leb, ltb, ◌==◌, if◌then◌else◌, u64_mod,
}
use story.Errors.{Error, cause, exec_eng_syncing}
use story.Action.{Outcome, ok, err, panic, Action, Done}
use story.Netconf.{is_terence}
use story.Evm.{EvmEvent}
use story.Staking.Types.{ElWithdrawal}
use story.Staking.Params.{max_withdrawal_per_block}
use story.Staking.Withdrawals.{peek_eligible_withdrawals, peek_eligible_reward_withdrawals}
use story.Engine.Types.{
  ExecutableData, ExecutionHead, MsgExecutionPayload, ForkchoiceState, PayloadAttributes,
  ForkChoiceResponse,
}
use story.Engine.Convert.{payload_to_proto}
use story.Engine.State.{Env, State, call, get_execution_head}
use story.Engine.Events.{canceled, evm_events}
use story.Engine.Withdrawals.{room_left}
use story.Engine.Proposal.{is_syncing, is_invalid}
use story.Engine.Finalize.{finality}
use story.Engine.Retry.{Run, once, retry_forever, ◌>>=◌, ◌>>◌}

unfoldable pub set_optimistic_payload : {X : Type 0} → ℕ → ℕ → State X → State X
set_optimistic_payload id height s = record s { payload_id = id; payload_height = height }

-- What a build that was started leaves: its failures are logged.
abbrev pub started :
    {X : Type 0} → ℕ → Outcome ForkChoiceResponse × State X → Outcome Done × State X
started height (ok fcr, s) =
    if is_syncing fcr.payload_status
    then (ok tt, s)
    else if is_invalid fcr.payload_status
    then (ok tt, s)
    else elim fcr.payload_id [
      | none ↦ (ok tt, s)
      | some id ↦ (ok tt, set_optimistic_payload id (height + 1) s)
    ]
started height (err e, s) = (ok tt, s)
started height (panic, s) = (panic, s)

module _ {X : Type 0} (env : Env X) where
  -- `isNextProposer`, where the API of CometBFT may not be there yet
  unfoldable pub is_next_proposer : ℕ → State X → Outcome Bool
  is_next_proposer height s =
      if not env.has_cmt_api
      then ok false
      else elim (env.modules.next_proposer height s.staking.ext) [
        | ok addr ↦ ok (addr == env.validator_addr)
        | err e ↦ err e
        | panic ↦ panic
      ]

  -- The next block's time, or one second after the head where that is not later
  abbrev pub build_timestamp : ExecutionHead → ℕ → ℕ
  build_timestamp head time =
      if leb time head.block_time then (head.block_time + 1) % u64_mod else time

  abbrev pub build_attributes : ExecutionHead → List ElWithdrawal → ℕ → PayloadAttributes
  build_attributes head withdrawals time = record {
    timestamp = build_timestamp head time;
    random = head.block_hash;
    suggested_fee_recipient = env.validator_addr;
    withdrawals = withdrawals;
    beacon_root = env.app_hash;
  }

  unfoldable pub start_build : List ElWithdrawal → ℕ → Action (State X) ForkChoiceResponse
  start_build withdrawals time s = elim (get_execution_head s) [
    | err e ↦ (err e, s)
    | panic ↦ (panic, s)
    | ok head ↦
        call
          (env.engine_cl.forkchoice_updated_v3 (finality env head.block_hash)
            (some (build_attributes head withdrawals time)))
          s
  ]

  -- The withdrawals that a payload must have: peeked, so that a payload that is not used leaves them.
  unfoldable pub peek_withdrawals : State X → Outcome (List ElWithdrawal)
  peek_withdrawals s = elim (max_withdrawal_per_block env.staking s.staking).0 [
    | err e ↦ err e
    | panic ↦ panic
    | ok max ↦ elim (peek_eligible_withdrawals env.staking.hex_to_address max s.staking) [
      | err e ↦ err e
      | panic ↦ panic
      | ok ws ↦
          elim (peek_eligible_reward_withdrawals env.staking.hex_to_address (room_left max ws)
            s.staking) [ err e ↦ err e | panic ↦ panic | ok rws ↦ ok (ws ++ rws) ]
    ]
  ]

  unfoldable pub start_optimistic : Action (State X) Done
  start_optimistic s = elim (peek_withdrawals s) [
    | err e ↦ (ok tt, s)
    | panic ↦ (panic, s)
    | ok ws ↦ started env.staking.block_height (start_build ws env.staking.block_time s)
  ]

  unfoldable pub post_finalize : Action (State X) Done
  post_finalize s =
      if not env.build_optimistic
      then (ok tt, s)
      else if s.is_exec_eng_syncing
      then (ok tt, s)
      else elim (is_next_proposer env.staking.block_height s) [
        | err e ↦ (ok tt, s)
        | panic ↦ (panic, s)
        | ok next ↦ if not next then (ok tt, s) else start_optimistic s
      ]

  -- One attempt to build a payload, for its identifier
  abbrev pub judge_build : Outcome ForkChoiceResponse → Outcome (Option ℕ)
  judge_build (ok fcr) =
      if is_syncing fcr.payload_status
      then err []
      else if is_invalid fcr.payload_status
      then err []
      else elim fcr.payload_id [ none ↦ err [] | some id ↦ ok (some id) ]
  judge_build (err e) = ok none
  judge_build panic = panic

  unfoldable pub try_build : List ElWithdrawal → ℕ → Action (State X) (Option ℕ)
  try_build ws time s = let (r, t) = start_build ws time s in (judge_build r, t)

  -- An unknown payload ends the attempts to fetch one.
  abbrev pub judge_fetch : Outcome ExecutableData → Outcome (Option ExecutableData)
  judge_fetch (ok p) = ok (some p)
  judge_fetch (err e) = if env.engine_cl.unknown_payload e then err e else ok none
  judge_fetch panic = panic

  unfoldable pub try_fetch : ℕ → Action (State X) (Option ExecutableData)
  try_fetch id s = let (r, t) = call (env.engine_cl.get_payload_v3 id) s in (judge_fetch r, t)

  unfoldable pub payload_message : ExecutableData → List EvmEvent → Outcome MsgExecutionPayload
  payload_message p events = elim (is_terence env.staking.chain_id env.staking.block_height) [
    | err e ↦ err e
    | panic ↦ panic
    | ok true ↦ elim (payload_to_proto p) [
      | err e ↦ err e
      | panic ↦ panic
      | ok m ↦ ok (record {
        authority = env.module_address;
        execution_payload = none;
        execution_payload_deneb = some m;
        prev_payload_events = events;
      })
    ]
    | ok false ↦ elim (env.codecs.marshal_payload p) [
      | err e ↦ err e
      | panic ↦ panic
      | ok json ↦ ok (record {
        authority = env.module_address;
        execution_payload = some json;
        execution_payload_deneb = none;
        prev_payload_events = events;
      })
    ]
  ]

  abbrev pub max_bytes : ℕ
  max_bytes = elim env.max_block_bytes [ none ↦ env.max_block_size_bytes | some n ↦ n ]

  unfoldable pub fit_message : ℕ → MsgExecutionPayload → Outcome (List MsgExecutionPayload)
  fit_message max_tx_bytes msg = elim (env.codecs.tx_size msg) [
    | err e ↦ err e
    | panic ↦ panic
    | ok size ↦ if ltb max_tx_bytes size then err [] else ok (msg ∷ [])
  ]

  -- The optimistic payload serves the height it was built for only.
  unfoldable pub choose_payload : ℕ → ℕ → ℕ → List ElWithdrawal → Run (State X) ℕ
  choose_payload fuel height time ws s =
      if height == s.payload_height
      then some (ok s.payload_id, s)
      else retry_forever (canceled env) (try_build ws time) fuel s

  -- The payload is converted before the events are collected; both must succeed.
  unfoldable pub build_message : ℕ → ℕ → ExecutableData → Run (State X) (List MsgExecutionPayload)
  build_message fuel max_tx_bytes p = do
    once (λ s. (payload_message p [], s))
    events ← evm_events env fuel p.parent_hash
    msg ← once (λ s. (payload_message p events, s))
    once (λ s. (fit_message max_tx_bytes msg, s))

  unfoldable pub propose : ℕ → ℕ → ℕ → ℕ → Run (State X) (List MsgExecutionPayload)
  propose fuel height time max_tx_bytes = do
    ws ← once (λ s. (peek_withdrawals s, s))
    id ← choose_payload fuel height time ws
    p ← retry_forever (canceled env) (try_fetch id) fuel
    build_message fuel max_tx_bytes p

  -- `PrepareProposal` at a request with `txs` transactions: the messages of the proposal's one
  -- transaction, or none.
  unfoldable pub prepare_proposal : ℕ → ℕ → ℕ → ℕ → ℕ → Run (State X) (List MsgExecutionPayload)
  prepare_proposal fuel txs max_tx_bytes height time s =
      if s.is_exec_eng_syncing
      then some (err (cause exec_eng_syncing ∷ []), s)
      else if ltb 0 txs
      then some (err [], s)
      else if ltb max_tx_bytes (max_bytes * 9 / 10)
      then some (err [], s)
      else if height == 1
      then some (ok [], s)
      else propose fuel height time max_tx_bytes s
