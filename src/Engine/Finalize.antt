-- ===== src/Engine/Finalize.antt =====
-- client/x/evmengine/keeper/msg_server.go, `ExecutionPayload`: the payload of a finalized block.
pub mod Head
pub mod Survives
use story.Base.{ℕ, Bool, true, false, not, Option, none, List, some, [], if◌then◌else◌}
use story.Action.{Outcome, ok, err, panic, Action, Done}
use story.Staking.Dispatch.{process_staking_events}
use story.Engine.Types.{
  ExecutableData, MsgExecutionPayload, Status, ForkchoiceState, ForkChoiceResponse,
}
use story.Engine.Convert.{slice}
use story.Engine.State.{Env, State, call, on_staking, update_execution_head}
use story.Engine.Payload.{parse_and_verify_proposed_payload}
use story.Engine.Withdrawals.{dequeue_withdrawals}
use story.Engine.Events.{canceled}
use story.Engine.Upgrades.{process_upgrade_events}
use story.Engine.Ubi.{process_ubi_events}
use story.Engine.Proposal.{is_syncing, is_invalid, push_payload}
use story.Engine.Retry.{Run, once, retry_forever, ◌>>=◌, ◌>>◌}

abbrev pub set_syncing : {X : Type 0} → Bool → State X → State X
set_syncing b s = record s { is_exec_eng_syncing = b }

-- A payload that is not invalid is pushed, and tells whether the execution client is syncing.
abbrev pub judge_finalized :
    {X : Type 0} → Outcome Status × State X → Outcome (Option Done) × State X
judge_finalized (ok st, s) =
    if is_invalid st
    then (err [], s)
    else if is_syncing st
    then (ok (some tt), set_syncing true s)
    else (ok (some tt), set_syncing false s)
judge_finalized (err e, s) = (ok none, s)
judge_finalized (panic, s) = (panic, s)

abbrev pub judge_forkchoice : Outcome ForkChoiceResponse → Outcome (Option Done)
judge_forkchoice (ok fcr) =
    if is_syncing fcr.payload_status
    then ok (some tt)
    else if is_invalid fcr.payload_status
    then err []
    else ok (some tt)
judge_forkchoice (err e) = ok none
judge_forkchoice panic = panic

module _ {X : Type 0} (env : Env X) where
  unfoldable pub push_finalized : ExecutableData → Action (State X) (Option Done)
  push_finalized p s = judge_finalized (push_payload env p s)

  abbrev pub finality : ℕ → ForkchoiceState
  finality hash = record {
    head_block_hash = hash;
    safe_block_hash = hash;
    finalized_block_hash = hash;
  }

  unfoldable pub update_forkchoice : ExecutableData → Action (State X) (Option Done)
  update_forkchoice p s =
      let (r, t) = call (env.engine_cl.forkchoice_updated_v3 (finality p.block_hash) none) s in
      (judge_forkchoice r, t)

  unfoldable pub deliver_events : MsgExecutionPayload → Run (State X) Done
  deliver_events msg = do
    once (
        on_staking (
          process_staking_events env.staking env.contracts.ip_token_staking
            msg.prev_payload_events))
    once (process_upgrade_events env msg.prev_payload_events)
    once (process_ubi_events env msg.prev_payload_events)

  unfoldable pub finalize_payload : ℕ → MsgExecutionPayload → ExecutableData → Run (State X) Done
  finalize_payload fuel msg payload = do
    once (dequeue_withdrawals env (slice payload.withdrawals))
    retry_forever (canceled env) (push_finalized payload) fuel
    retry_forever (canceled env) (update_forkchoice payload) fuel
    deliver_events msg
    once (update_execution_head env.staking.block_height payload)

  unfoldable pub execution_payload : ℕ → MsgExecutionPayload → Run (State X) Done
  execution_payload fuel msg s =
      if not env.is_finalize_mode
      then some (err [], s)
      else elim (parse_and_verify_proposed_payload env msg s) [
        | err e ↦ some (err e, s)
        | panic ↦ some (panic, s)
        | ok payload ↦ finalize_payload fuel msg payload s
      ]
