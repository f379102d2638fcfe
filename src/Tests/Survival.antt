-- ===== src/Tests/Survival.antt =====
-- Blocks whose logs cannot be read, and a plan that is canceled.
use story.Base.{ℕ, ◌≡◌, refl, false, some, List, [], ◌∷◌, arith}
use story.Action.{Action, ok}
use story.Evm.{EvmEvent, verify, topics_fit}
use story.Staking.Dispatch.Survives.{ParsersReturn}
use story.Netconf.{is_terence, get_upgrade_height}
use story.Engine.Types.{MsgExecutionPayload, CancelUpgrade}
use story.Engine.Upgrades.{
  no_plan, get_pending_upgrade, should_upgrade, set_pending_upgrade, process_cancel_upgrade,
}
use story.Engine.Upgrades.Pending.{pending_with}
use story.Engine.Upgrades.Cancel.{canceled, process_cancel_upgrade_lem}
use story.Engine.State.{State}
use story.Engine.Finalize.{deliver_events}
use story.Engine.Finalize.Survives.{AllParsersReturn, deliver_events-succeeds}
use story.App.Abci.{RequestFinalizeBlock, ResponseFinalizeBlock}
use story.Tests.Data.{World, env, contract, state, message, plan}
use story.Tests.App.{hash}

abbrev address : List ℕ
address = 1 ∷ 1 ∷ 1 ∷ 1 ∷ 1 ∷ 1 ∷ 1 ∷ 1 ∷ 1 ∷ 1 ∷ 1 ∷ 1 ∷ 1 ∷ 1 ∷ 1 ∷ 1 ∷ 1 ∷ 1 ∷ 1 ∷ 1 ∷ []

abbrev pub log : EvmEvent
log = record { address = some address; topics = hash ∷ []; log_data = []; tx_hash = some hash }

abbrev logged : MsgExecutionPayload
logged = record message { prev_payload_events = log ∷ [] }

parsers : ParsersReturn contract
parsers = record {
  commission = λ log h. ground arith;
  withdrawal_address = λ log h. ground arith;
  reward_address = λ log h. ground arith;
  operator = λ log h. ground arith;
  no_operator = λ log h. ground arith;
  create_validator = λ log h. ground arith;
  deposit = λ log h. ground arith;
  redelegate = λ log h. ground arith;
  withdraw = λ log h. ground arith;
  unjail = λ log h. ground arith;
}

all_parsers : AllParsersReturn env.contracts
all_parsers = record {
  staking = parsers;
  software_upgrade = λ log h. ground arith;
  cancel_upgrade = λ log h. ground arith;
  ubi_percentage_set = λ log h. ground arith;
}

verified : verify log ≡ ok tt
unfolding verify topics_fit
verified = refl

deliver_events-succeeds_example :
    (t : State World) × (deliver_events env logged state ≡ some (ok tt, t))
deliver_events-succeeds_example =
    deliver_events-succeeds env all_parsers logged state (verified, tt)

abbrev waiting : State World
waiting = pending_with env plan state

abbrev cancellation : CancelUpgrade
cancellation = record { tx_hash = hash }

process_cancel_upgrade_lem_example :
    (process_cancel_upgrade env cancellation waiting ≡ (ok tt, canceled env cancellation waiting))
    × (should_upgrade env (canceled env cancellation waiting) ≡ (false, no_plan))
    × (set_pending_upgrade env plan (canceled env cancellation waiting)
        ≡ (ok tt, pending_with env plan (canceled env cancellation waiting)))
    × (get_pending_upgrade env (pending_with env plan (canceled env cancellation waiting))
        ≡ ok plan)
unfolding is_terence get_upgrade_height
process_cancel_upgrade_lem_example =
    process_cancel_upgrade_lem env cancellation waiting plan refl refl (omega arith) refl

abbrev response : ResponseFinalizeBlock
response = record { app_hash = 9; validator_updates = [] }

abbrev application : RequestFinalizeBlock → Action (State World) ResponseFinalizeBlock
application req s = (ok response, s)

abbrev block : RequestFinalizeBlock
block = record { height = 100; time = 2000 }
