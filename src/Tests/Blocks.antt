-- ===== src/Tests/Blocks.antt =====
-- The engine's theorems at one proposed and finalized block.
use story.Base.{ℕ, ◌≡◌, ◌↔◌, refl, true, false, none, some, [], ◌∷◌, leb, if◌then◌else◌, arith}
use text.Mathlib.Text.{◌==◌ as str_eq}
use story.ErrCode
use story.Netconf.{is_terence, get_upgrade_height}
use story.Errors.{unwrap_err_code}
use story.Action.{ok, err}
use story.Queue.Represents.{Represents}
use story.Queue.{is_empty, len, front_of, get, dequeue}
use story.Staking.Params.{max_withdrawal_per_block, read_params}
use story.Staking.Withdrawals.{
  peek_eligible_withdrawals, peek_eligible, peek_loop, peek_eligible_reward_withdrawals,
  dequeue_eligible_withdrawals, dequeue_eligible_reward_withdrawals, dequeue_eligible, dequeue_loop,
}
use story.Staking.Dispatch.{process_staking_events}
use story.Engine.Ubi.{process_ubi_events}
use story.Staking.Events.{upgrade_failure}
use story.Staking.Handlers.{failure_of}
use story.Engine.Types.{ExecutableData, ExecutionPayloadDeneb, SoftwareUpgrade}
use story.Engine.Convert.{payload_to_proto, payload_from_proto}
use story.Engine.Convert.RoundTrip.{payload_from_proto-payload_to_proto}
use story.Engine.State.{State, get_execution_head, update_execution_head}
use story.Engine.Payload.{parse_payload, verify_payload, parse_and_verify_proposed_payload}
use story.Engine.Payload.Sound.{Follows, parse_and_verify_proposed_payload_iff}
use story.Engine.Withdrawals.{
  compare_withdrawals, compare_with_rewards, compare_found, dequeue_withdrawals, dequeue_rewards,
}
use story.Engine.Withdrawals.Compare.{pointers}
use story.Engine.Withdrawals.Agree.{
  compare_withdrawals_iff, dequeue_withdrawals-compare_withdrawals,
}
use story.Engine.Events.{canceled, evm_events, evm_events_equal}
use story.Engine.Retry.{retry_forever}
use story.Engine.Retry.Ends.{now, retry_forever-Answers}
use story.Engine.Proposal.{propose_execution_payload, push_proposal, push_payload, check_proposal}
use story.Engine.Proposal.Accepts.{Accepted, propose_execution_payload_iff}
use story.Engine.Finalize.{
  execution_payload, finalize_payload, push_finalized, update_forkchoice, deliver_events,
}
use story.Engine.Finalize.Head.{head_of, execution_payload-head}
use story.Engine.Build.{post_finalize}
use story.Engine.Build.Optimistic.{post_finalize-Built, Built, is_err}
use story.Engine.Upgrades.{
  process_upgrade_events, is_upgrade_pending, get_pending_upgrade, set_pending_upgrade,
  should_upgrade, no_plan, process_software_upgrade, software_upgrade_attributes, emit_event,
}
use story.Engine.Upgrades.Pending.{
  set_pending_upgrade_lem, process_software_upgrade_pending, pending_with, at_height, pending_error,
}
use story.Tests.Data.{
  World, env, state, head, message, payload, owed, plan, unstaked, rewarded, queue_of-Represents,
}

compare_withdrawals_iff_example :
    ((compare_withdrawals env (pointers owed) state).0 ≡ ok tt) ↔ (pointers owed ≡ pointers owed)
unfolding max_withdrawal_per_block read_params
compare_withdrawals_iff_example =
    compare_withdrawals_iff env state 4 0 0 (unstaked ∷ []) (rewarded ∷ []) (pointers owed) refl
      (omega arith) (queue_of-Represents unstaked) (queue_of-Represents rewarded)

abbrev finalized : State World
finalized = (dequeue_withdrawals env (pointers owed) state).1

dequeue_withdrawals-compare_withdrawals_example :
    ((dequeue_withdrawals env (pointers owed) state).0 ≡ ok tt)
    × Represents finalized.staking.withdrawal_queue 1 []
    × Represents finalized.staking.reward_withdrawal_queue 1 []
unfolding max_withdrawal_per_block read_params
dequeue_withdrawals-compare_withdrawals_example =
    dequeue_withdrawals-compare_withdrawals env state 4 0 0 (unstaked ∷ []) (rewarded ∷ [])
      (pointers owed) refl (omega arith) (queue_of-Represents unstaked)
      (queue_of-Represents rewarded)
      ((compare_withdrawals_iff env state 4 0 0 (unstaked ∷ []) (rewarded ∷ []) (pointers owed) refl
          (omega arith) (queue_of-Represents unstaked) (queue_of-Represents rewarded)).1
        refl)

parse_and_verify_proposed_payload_iff_example :
    (parse_and_verify_proposed_payload env message state ≡ ok payload) ↔ (
      (str_eq message.authority env.module_address ≡ true)
      × (parse_payload env true message ≡ ok payload)
      × Follows env head payload)
unfolding is_terence get_upgrade_height
parse_and_verify_proposed_payload_iff_example =
    parse_and_verify_proposed_payload_iff env state message head true payload refl refl

propose_execution_payload_iff_example :
    (state.is_exec_eng_syncing ≡ false)
    × ((p : ExecutableData) × Accepted env 1 message p state state)
unfolding is_terence get_upgrade_height parse_and_verify_proposed_payload parse_payload
    payload_from_proto get_execution_head verify_payload compare_withdrawals
    max_withdrawal_per_block read_params peek_eligible_withdrawals peek_eligible is_empty len
    front_of peek_loop get compare_with_rewards peek_eligible_reward_withdrawals compare_found
    propose_execution_payload check_proposal retry_forever evm_events evm_events_equal push_payload
    push_proposal
propose_execution_payload_iff_example =
    (propose_execution_payload_iff env 1 message state state).0 refl

-- The state after the block.
abbrev after : State World
after = elim (execution_payload env 1 message state) [ none ↦ state | some p ↦ p.1 ]

execution_payload-head_example :
    (p : ExecutableData) × (parse_and_verify_proposed_payload env message state ≡ ok p)
    × (after.head ≡ some (head_of 100 p))
unfolding is_terence get_upgrade_height parse_and_verify_proposed_payload parse_payload
    payload_from_proto get_execution_head verify_payload max_withdrawal_per_block read_params
    is_empty len front_of execution_payload finalize_payload dequeue_withdrawals dequeue_rewards
    dequeue_eligible_withdrawals dequeue_eligible_reward_withdrawals dequeue_eligible dequeue_loop
    dequeue retry_forever push_finalized push_payload update_forkchoice deliver_events
    process_staking_events process_upgrade_events process_ubi_events update_execution_head
execution_payload-head_example = execution_payload-head env 1 message state after refl

post_finalize-Built_example :
    (is_err (post_finalize env state).0 ≡ false) × Built 100 state (post_finalize env state).1
post_finalize-Built_example = post_finalize-Built env state

retry_forever-Answers_example :
    retry_forever (canceled env) (push_proposal env payload) 3 state ≡ some (ok tt, state)
unfolding push_proposal push_payload
retry_forever-Answers_example =
    retry_forever-Answers (canceled env) (push_proposal env payload) 0 3 state state tt
      (now refl refl) (omega arith)

set_pending_upgrade_lem_example :
    (set_pending_upgrade env plan state ≡ (ok tt, pending_with env plan state))
    × (get_pending_upgrade env (pending_with env plan state) ≡ ok plan)
    × ((height : ℕ)
        → should_upgrade (at_height env height) (pending_with env plan state)
          ≡ (if leb 200 height then (true, plan) else (false, no_plan)))
unfolding is_upgrade_pending get_pending_upgrade
set_pending_upgrade_lem_example =
    set_pending_upgrade_lem env plan state refl (omega arith) refl refl

abbrev upgrade : SoftwareUpgrade
upgrade = record { name = "next"; height = 200; info = ""; tx_hash = [] }

abbrev busy : State World
busy = pending_with env plan state

process_software_upgrade_pending_example :
    (process_software_upgrade env upgrade busy ≡ (
      err (pending_error env upgrade busy),
      emit_event
          (failure_of upgrade_failure
            (software_upgrade_attributes env upgrade)
            (pending_error env upgrade busy))
          busy,
    ))
    × (unwrap_err_code (pending_error env upgrade busy) ≡ ErrCode.pending_upgrade_exists)
unfolding is_upgrade_pending get_pending_upgrade is_terence get_upgrade_height
process_software_upgrade_pending_example =
    process_software_upgrade_pending env upgrade busy refl refl (omega arith) refl

payload_from_proto-payload_to_proto_example :
    (m : ExecutionPayloadDeneb) × (payload_to_proto payload ≡ ok m)
    × (payload_from_proto (some m) ≡ ok payload)
payload_from_proto-payload_to_proto_example =
    payload_from_proto-payload_to_proto payload owed [] 0 0 refl refl refl refl refl (omega arith)
