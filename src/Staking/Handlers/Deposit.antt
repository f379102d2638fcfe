-- ===== src/Staking/Handlers/Deposit.antt =====
-- client/x/evmstaking/keeper/deposit.go: tokens staked on the execution layer are minted and
-- delegated. The amount is in gwei.
use story.Base.{ℕ, ◌%◌, ◌^◌, Bool, String, List, [], ◌∷◌, ◌==◌, if◌then◌else◌, u64_mod}
use story.ErrCode
use story.Errors.{no_validator_found, delegation_below_minimum, no_period_type_found}
use story.Action.{Action, Done, pure, gets, map_err, ◌>>=◌, ◌>>◌}
use story.Staking.Events.{
  Attribute, delegate_failure, delegate_success, amount, block_height, delegator_addr,
  validator_cmp_pubkey, delegation_id, staking_period, sender_address, tx_hash, num, address, bytes,
}
use story.Staking.Types.{Deposit}
use story.Staking.External.{Env}
use story.Staking.State.{State, call, query}
use story.Staking.Handlers.{
  process, event_of, failure_of, coded, validator_address, keep_withdraw_address,
  keep_reward_address,
}

module _ {X : Type 0} (env : Env X) where
  -- Period and identifier of the delegation: locked tokens have the flexible period only.
  unfoldable pub deposit_period : Deposit → Bool → Action (State X) (String × ℕ)
  deposit_period ev locked =
      if locked
      then (do
        flexible ← query env.flexible_period_type
        pure (env.flexible_period_delegation_id, flexible))
      else pure (env.decimal ev.delegation_id, ev.staking_period % 2 ^ 32)

  unfoldable pub deposit_body : Deposit → Action (State X) Done
  unfolding deposit_period
  deposit_body ev = do
    val_evm_addr ← validator_address env ev.validator_cmp_pubkey
    known ← gets (λ s. env.has_account ev.delegator s.ext)
    if known then pure tt else call (env.create_account ev.delegator)
    locked_type ← query env.locked_token_type
    val ←
        map_err (coded ((no_validator_found, ErrCode.validator_not_found) ∷ []))
          (query (env.get_validator val_evm_addr))
    period ← deposit_period ev (val.support_token_type == locked_type)
    keep_withdraw_address env (env.acc_string ev.delegator) (env.address_string ev.delegator)
    keep_reward_address env (env.acc_string ev.delegator) (env.address_string ev.delegator)
    call (env.mint_coins ev.stake_amount)
    call (env.send_module_to_account ev.delegator ev.stake_amount)
    map_err
        (coded (
          (delegation_below_minimum, ErrCode.invalid_delegation_amount)
          ∷ (no_period_type_found, ErrCode.invalid_period_type)
          ∷ []))
        (call (
          env.delegate (env.acc_string ev.delegator) (env.val_string val_evm_addr) ev.stake_amount
            period.0 period.1))

  unfoldable pub process_deposit : Deposit → Action (State X) Done
  process_deposit ev =
      process (λ _. event_of delegate_success attributes) (failure_of delegate_failure attributes)
        (deposit_body ev)
    where
      attributes : List Attribute
      attributes =
          (amount, num ev.stake_amount)
          ∷ (block_height, num env.block_height)
          ∷ (delegator_addr, address ev.delegator)
          ∷ (validator_cmp_pubkey, bytes ev.validator_cmp_pubkey)
          ∷ (delegation_id, num ev.delegation_id)
          ∷ (staking_period, num (ev.staking_period % u64_mod))
          ∷ (sender_address, address ev.operator_address)
          ∷ (tx_hash, bytes ev.tx_hash)
          ∷ []
