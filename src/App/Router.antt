-- ===== src/App/Router.antt =====
-- client/app/prouter.go, `makeProcessProposalHandler`: which proposals a validator accepts. The
-- timeout of a proposal is a canceled context, which the engine's client tells.
pub mod Admits
use story.Base.{
  ℕ, zero, suc, Bool, not, Option, none, some, List, [], ◌∷◌, ◌==◌, ltb, length, if◌then◌else◌,
}
use story.Action.{Outcome, ok, err, panic, Done}
use story.Engine.Types.{MsgExecutionPayload}
use story.Engine.State.{Env as EngineEnv, State}
use story.Engine.Retry.{Run}
use story.Engine.Proposal.{propose_execution_payload}
use story.App.Votes.{Vote, has_quorum}
use story.App.Tx.{Tx, Msg, execution_payload, other, validate_tx}

-- `ResponseProcessProposal_ProposalStatus`; the handler returns no error with it.
pub data Verdict : Type 0 where
  accept : Verdict
  reject : Verdict

pub record RequestProcessProposal : Type 0 where
  pub height : ℕ
  pub txs : List (List ℕ)
  pub votes : List Vote

pub record Env (X : Type 0) : Type 0 where
  pub engine : EngineEnv X
  -- the decoder of the SDK's transaction configuration
  pub tx_decoder : List ℕ → Outcome Tx
  -- the address of the engine module's account
  pub module_account : List ℕ

module _ {X : Type 0} (env : Env X) (fuel : ℕ) where
  abbrev pub reject_proposal : Run (State X) Verdict
  reject_proposal s = some (ok reject, s)

  -- The loop over the messages, where `left` is how often the payload's type is still expected. Every
  -- message that is routed runs its handler.
  unfoldable pub route_msgs : ℕ → List Msg → Run (State X) Verdict
  route_msgs left [] s = if left == 0 then some (ok accept, s) else reject_proposal s
  route_msgs left (other ∷ msgs) s = reject_proposal s
  route_msgs zero (execution_payload msg ∷ msgs) s = reject_proposal s
  route_msgs (suc left) (execution_payload msg ∷ msgs) s =
      elim (propose_execution_payload env.engine fuel msg s) [
        | none ↦ none
        | some p ↦ elim p.0 [
          | ok _ ↦ route_msgs left msgs p.1
          | err e ↦ reject_proposal p.1
          | panic ↦ some (panic, p.1)
        ]
      ]

  -- One payload is expected.
  unfoldable pub process_tx : List ℕ → Run (State X) Verdict
  process_tx raw s = elim (env.tx_decoder raw) [
    | err e ↦ reject_proposal s
    | panic ↦ some (panic, s)
    | ok tx ↦ elim (validate_tx env.module_account tx) [
      | err e ↦ reject_proposal s
      | panic ↦ some (panic, s)
      | ok _ ↦ route_msgs 1 tx.msgs s
    ]
  ]

  -- The transactions of a proposal past the first height
  unfoldable pub process_txs : List Vote → List (List ℕ) → Run (State X) Verdict
  process_txs votes [] s = reject_proposal s
  process_txs votes (raw ∷ []) s =
      if not (has_quorum votes) then reject_proposal s else process_tx raw s
  process_txs votes (raw ∷ _ ∷ _) s = reject_proposal s

  unfoldable pub process_proposal : RequestProcessProposal → Run (State X) Verdict
  process_proposal req s =
      if req.height == 1
      then (if ltb 0 (length req.txs) then reject_proposal s else some (ok accept, s))
      else process_txs req.votes req.txs s
