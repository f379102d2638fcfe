-- ===== src/Staking/Handlers/Frames.antt =====
-- Each of the ten handlers ends in a success with its effects, or in a failure without any.
use story.Base.{refl}
use story.Action.{Action, Done}
use story.Staking.Events
use story.Staking.Events.{EventType}
use story.Staking.Types
use story.Staking.Types.{SetAddress, SetOperator, UnsetOperator}
use story.Staking.External.{Env}
use story.Staking.State.{State}
use story.Staking.Handlers.Addresses.{
  process_set_withdrawal_address, process_set_reward_address, process_set_operator,
  process_unset_operator,
}
use story.Staking.Handlers.Deposit.{process_deposit, deposit_body}
use story.Staking.Handlers.Create.{process_create_validator, create_validator_body}
use story.Staking.Handlers.Redelegate.{process_redelegate, redelegate_body, redelegate_after}
use story.Staking.Handlers.Withdraw.{process_withdraw, withdraw_body, withdraw_after}
use story.Staking.Handlers.Unjail.{process_unjail, unjail_body, unjail_as}
use story.Staking.Handlers.Commission.{process_update_validator_commission, commission_body}
use story.Staking.Handlers.Atomic.{Keeps, Ends, framing, process_ends}

-- The parsed events of the staking contract.
pub data Request : Type 0 where
  update_validator_commission : Types.UpdateValidatorCommission → Request
  set_withdrawal_address : SetAddress → Request
  set_reward_address : SetAddress → Request
  set_operator : SetOperator → Request
  unset_operator : UnsetOperator → Request
  create_validator : Types.CreateValidator → Request
  deposit : Types.Deposit → Request
  redelegate : Types.Redelegate → Request
  withdraw : Types.Withdraw → Request
  unjail : Types.Unjail → Request

-- The types of the events that tell a handler's success and its failure.
abbrev pub success_type : Request → EventType
success_type (update_validator_commission _) = Events.update_validator_commission_success
success_type (set_withdrawal_address _) = Events.set_withdrawal_address_success
success_type (set_reward_address _) = Events.set_reward_address_success
success_type (set_operator _) = Events.set_operator_success
success_type (unset_operator _) = Events.unset_operator_success
success_type (create_validator _) = Events.create_validator_success
success_type (deposit _) = Events.delegate_success
success_type (redelegate _) = Events.redelegate_success
success_type (withdraw _) = Events.undelegate_success
success_type (unjail _) = Events.unjail_success

abbrev pub failure_type : Request → EventType
failure_type (update_validator_commission _) = Events.update_validator_commission_failure
failure_type (set_withdrawal_address _) = Events.set_withdrawal_address_failure
failure_type (set_reward_address _) = Events.set_reward_address_failure
failure_type (set_operator _) = Events.set_operator_failure
failure_type (unset_operator _) = Events.unset_operator_failure
failure_type (create_validator _) = Events.create_validator_failure
failure_type (deposit _) = Events.delegate_failure
failure_type (redelegate _) = Events.redelegate_failure
failure_type (withdraw _) = Events.undelegate_failure
failure_type (unjail _) = Events.unjail_failure

module _ {X : Type 0} (env : Env X) where
  abbrev pub handle : Request → Action (State X) Done
  handle (update_validator_commission ev) = process_update_validator_commission env ev
  handle (set_withdrawal_address ev) = process_set_withdrawal_address env ev
  handle (set_reward_address ev) = process_set_reward_address env ev
  handle (set_operator ev) = process_set_operator env ev
  handle (unset_operator ev) = process_unset_operator env ev
  handle (create_validator ev) = process_create_validator env ev
  handle (deposit ev) = process_deposit env ev
  handle (redelegate ev) = process_redelegate env ev
  handle (withdraw ev) = process_withdraw env ev
  handle (unjail ev) = process_unjail env ev

  deposit_body-Keeps : (ev : Types.Deposit) → Keeps (deposit_body env ev)
  unfolding deposit_body
  deposit_body-Keeps ev = search framing depth 20

  create_validator_body-Keeps : (ev : Types.CreateValidator) → Keeps (create_validator_body env ev)
  unfolding create_validator_body
  create_validator_body-Keeps ev = search framing depth 20

  redelegate_body-Keeps : (ev : Types.Redelegate) → Keeps (redelegate_body env ev)
  unfolding redelegate_body redelegate_after
  redelegate_body-Keeps ev = search framing depth 20

  withdraw_body-Keeps : (ev : Types.Withdraw) → Keeps (withdraw_body env ev)
  unfolding withdraw_body withdraw_after
  withdraw_body-Keeps ev = search framing depth 20

  unjail_body-Keeps : (ev : Types.Unjail) → Keeps (unjail_body env ev)
  unfolding unjail_body unjail_as
  unjail_body-Keeps ev = search framing depth 20

  commission_body-Keeps : (ev : Types.UpdateValidatorCommission) → Keeps (commission_body env ev)
  unfolding commission_body
  commission_body-Keeps ev = search framing depth 20

  -- A handler never panics. When it succeeds it leaves the two queues, the parameters and the sweep
  -- index as they were and emits one event of its success type; when it fails it leaves everything,
  -- the other modules included, as it was and emits one event of its failure type with the code of
  -- the error that it returns.
  pub handle-Ends :
      (req : Request) (s : State X)
      → let (r, t) = handle req s in Ends (success_type req) (failure_type req) s r t
  unfolding process_update_validator_commission process_set_withdrawal_address
      process_set_reward_address process_set_operator process_unset_operator
      process_create_validator process_deposit process_redelegate process_withdraw process_unjail
  handle-Ends (update_validator_commission ev) s =
      process_ends _ _ _ _ _ s (commission_body-Keeps ev)
  handle-Ends (set_withdrawal_address ev) s =
      process_ends _ _ _ _ _ s (record { keeps = λ s. refl })
  handle-Ends (set_reward_address ev) s = process_ends _ _ _ _ _ s (record { keeps = λ s. refl })
  handle-Ends (set_operator ev) s = process_ends _ _ _ _ _ s (record { keeps = λ s. refl })
  handle-Ends (unset_operator ev) s = process_ends _ _ _ _ _ s (record { keeps = λ s. refl })
  handle-Ends (create_validator ev) s = process_ends _ _ _ _ _ s (create_validator_body-Keeps ev)
  handle-Ends (deposit ev) s = process_ends _ _ _ _ _ s (deposit_body-Keeps ev)
  handle-Ends (redelegate ev) s = process_ends _ _ _ _ _ s (redelegate_body-Keeps ev)
  handle-Ends (withdraw ev) s = process_ends _ _ _ _ _ s (withdraw_body-Keeps ev)
  handle-Ends (unjail ev) s = process_ends _ _ _ _ _ s (unjail_body-Keeps ev)
