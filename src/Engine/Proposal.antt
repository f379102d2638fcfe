-- ===== src/Engine/Proposal.antt =====
-- client/x/evmengine/keeper/proposal_server.go, `ExecutionPayload`: the check of a proposed payload,
-- and `pushPayload`, `isSyncing`, `isInvalid` of msg_server.go.
pub mod Pushed
pub mod Accepts
use story.Base.{ℕ, Bool, true, false, Option, none, some, List, [], ◌∷◌, ◌==◌, if◌then◌else◌}
use story.Errors.{Error, cause, exec_eng_syncing}
use story.Action.{Outcome, ok, err, panic, Action, Done}
use story.Engine.Types.{
  ExecutableData, MsgExecutionPayload, Status, valid, invalid, syncing, accepted,
}
use story.Engine.Convert.{slice}
use story.Engine.State.{Env, State, call}
use story.Engine.Payload.{parse_and_verify_proposed_payload}
use story.Engine.Withdrawals.{compare_withdrawals}
use story.Engine.Events.{canceled, evm_events, evm_events_equal}
use story.Engine.Retry.{Run, once, retry_forever, ◌>>=◌, ◌>>◌}

abbrev pub is_syncing : Status → Bool
is_syncing syncing = true
is_syncing accepted = true
is_syncing _ = false

abbrev pub is_invalid : Status → Bool
is_invalid invalid = true
is_invalid _ = false

module _ {X : Type 0} (env : Env X) where
  unfoldable pub push_payload : ExecutableData → Action (State X) Status
  push_payload p =
      if env.app_hash == 0
      then (λ s. (err [], s))
      else call (env.engine_cl.new_payload_v3 p env.app_hash)

  -- What an attempt makes of the status
  abbrev pub judge_proposal : Outcome Status → Outcome (Option Done)
  judge_proposal (ok st) =
      if is_invalid st
      then err []
      else if is_syncing st
      then err (cause exec_eng_syncing ∷ [])
      else ok (some tt)
  judge_proposal (err e) = ok none
  judge_proposal panic = panic

  unfoldable pub push_proposal : ExecutableData → Action (State X) (Option Done)
  push_proposal p s = let (r, t) = push_payload p s in (judge_proposal r, t)

  unfoldable pub check_proposal : ℕ → MsgExecutionPayload → ExecutableData → Run (State X) Done
  check_proposal fuel msg payload = do
    once (compare_withdrawals env (slice payload.withdrawals))
    retry_forever (canceled env) (push_proposal payload) fuel
    events ← evm_events env fuel payload.parent_hash
    once (λ s. (evm_events_equal env.codecs.proto_equal events msg.prev_payload_events, s))

  unfoldable pub propose_execution_payload : ℕ → MsgExecutionPayload → Run (State X) Done
  propose_execution_payload fuel msg s =
      if s.is_exec_eng_syncing
      then some (err (cause exec_eng_syncing ∷ []), s)
      else elim (parse_and_verify_proposed_payload env msg s) [
        | err e ↦ some (err e, s)
        | panic ↦ some (panic, s)
        | ok payload ↦ check_proposal fuel msg payload s
      ]
