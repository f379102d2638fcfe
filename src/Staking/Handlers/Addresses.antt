-- ===== src/Staking/Handlers/Addresses.antt =====
-- client/x/evmstaking/keeper/delegator_address.go: a delegator names its withdrawal address, its
-- reward address and its operator.
use story.Base.{List, [], ◌∷◌}
use story.Action.{Action, Done, modify}
use story.Staking.Events.{
  Attribute, set_withdrawal_address_failure, set_withdrawal_address_success,
  set_reward_address_failure, set_reward_address_success, set_operator_failure,
  set_operator_success, unset_operator_failure, unset_operator_success, block_height,
  delegator_addr, reward_address, withdrawal_address, operator_address, tx_hash, num, address,
  bytes,
}
use story.Staking.Types.{SetAddress, SetOperator, UnsetOperator}
use story.Staking.External.{Env}
use story.Staking.State.{State, insert, erase}
use story.Staking.Handlers.{process, event_of, failure_of}

module _ {X : Type 0} (env : Env X) where
  unfoldable pub process_set_withdrawal_address : SetAddress → Action (State X) Done
  process_set_withdrawal_address ev =
      process (λ _. event_of set_withdrawal_address_success attributes)
        (failure_of set_withdrawal_address_failure attributes)
        (modify (λ s. record s {
          delegator_withdraw_address =
              insert (env.acc_string ev.delegator)
                (env.address_string (env.bytes_to_address ev.execution_address))
                s.delegator_withdraw_address;
        }))
    where
      attributes : List Attribute
      attributes =
          (block_height, num env.block_height)
          ∷ (delegator_addr, address ev.delegator)
          ∷ (reward_address, num ev.execution_address)
          ∷ (tx_hash, bytes ev.tx_hash)
          ∷ []

  unfoldable pub process_set_reward_address : SetAddress → Action (State X) Done
  process_set_reward_address ev =
      process (λ _. event_of set_reward_address_success attributes)
        (failure_of set_reward_address_failure attributes)
        (modify (λ s. record s {
          delegator_reward_address =
              insert (env.acc_string ev.delegator)
                (env.address_string (env.bytes_to_address ev.execution_address))
                s.delegator_reward_address;
        }))
    where
      attributes : List Attribute
      attributes =
          (block_height, num env.block_height)
          ∷ (delegator_addr, address ev.delegator)
          ∷ (withdrawal_address, num ev.execution_address)
          ∷ (tx_hash, bytes ev.tx_hash)
          ∷ []

  unfoldable pub process_set_operator : SetOperator → Action (State X) Done
  process_set_operator ev =
      process (λ _. event_of set_operator_success attributes)
        (failure_of set_operator_failure attributes)
        (modify (λ s. record s {
          delegator_operator_address =
              insert (env.acc_string ev.delegator) (env.address_string ev.operator)
                s.delegator_operator_address;
        }))
    where
      attributes : List Attribute
      attributes =
          (block_height, num env.block_height)
          ∷ (delegator_addr, address ev.delegator)
          ∷ (operator_address, address ev.operator)
          ∷ (tx_hash, bytes ev.tx_hash)
          ∷ []

  unfoldable pub process_unset_operator : UnsetOperator → Action (State X) Done
  process_unset_operator ev =
      process (λ _. event_of unset_operator_success attributes)
        (failure_of unset_operator_failure attributes)
        (modify (λ s. record s {
          delegator_operator_address =
              erase (env.acc_string ev.delegator) s.delegator_operator_address;
        }))
    where
      attributes : List Attribute
      attributes =
          (block_height, num env.block_height)
          ∷ (delegator_addr, address ev.delegator)
          ∷ (tx_hash, bytes ev.tx_hash)
          ∷ []
