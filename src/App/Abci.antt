-- ===== src/App/Abci.antt =====
-- client/app/abci.go: the wrapper around the application, whose `FinalizeBlock` calls the engine's
-- callback after the block. The other calls are passed on with a log.
pub mod Answers
use story.Base.{ℕ, List}
use story.Action.{Outcome, ok, err, panic, Action, Done}
use story.Engine.State.{Env, State}
use story.Engine.Build.{post_finalize}

pub record RequestFinalizeBlock : Type 0 where
  pub height : ℕ
  pub time : ℕ

pub record ValidatorUpdate : Type 0 where
  pub pub_key : List ℕ
  pub power : ℕ

-- The response without the results of the transactions, which are only logged here
pub record ResponseFinalizeBlock : Type 0 where
  pub app_hash : ℕ
  pub validator_updates : List ValidatorUpdate

module _ {X : Type 0} (env : Env X) where
  -- The context of the callback: the request's height and time, the hash after the block, and no
  -- identifier of the chain
  abbrev pub context_after : RequestFinalizeBlock → ResponseFinalizeBlock → Env X
  context_after req resp = record env {
    app_hash = resp.app_hash;
    staking = record (env.staking) {
      context = record { block_height = req.height; chain_id = ""; block_time = req.time };
    };
  }

  -- An error of the callback is logged.
  abbrev pub after_callback :
      ResponseFinalizeBlock → Outcome Done × State X → Outcome ResponseFinalizeBlock × State X
  after_callback resp (ok d, s) = (ok resp, s)
  after_callback resp (err e, s) = (ok resp, s)
  after_callback resp (panic, s) = (panic, s)

  abbrev pub call_back :
      RequestFinalizeBlock
      → Outcome ResponseFinalizeBlock × State X
      → Outcome ResponseFinalizeBlock × State X
  call_back req (err e, s) = (err e, s)
  call_back req (panic, s) = (panic, s)
  call_back req (ok resp, s) = after_callback resp (post_finalize (context_after req resp) s)

  unfoldable pub finalize_block :
      (RequestFinalizeBlock → Action (State X) ResponseFinalizeBlock)
      → RequestFinalizeBlock
      → Action (State X) ResponseFinalizeBlock
  finalize_block application req s = call_back req (application req s)
