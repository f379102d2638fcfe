-- ===== src/Staking/Handlers/Create.antt =====
-- client/x/evmstaking/keeper/validator.go: a validator is created with its self-delegation.
use package.text.Mathlib.Text.{◌==◌ as str_eq}
use story.Base.{String, List, [], ◌∷◌, if◌then◌else◌}
use story.ErrCode
use story.Errors.{
  validator_owner_exists, commission_lt_min_rate, min_self_delegation_below_min_delegation,
  no_token_type_found,
}
use story.Action.{Action, Done, pure, gets, outcome, map_err, ◌>>=◌, ◌>>◌}
use story.Staking.Events.{
  Attribute, create_validator_failure, create_validator_success, amount, block_height,
  validator_cmp_pubkey, moniker, commission_rate, max_commission_rate, max_commission_change_rate,
  token_type, sender_address, tx_hash, num, address, bytes, text,
}
use story.Staking.Types.{CreateValidator}
use story.Staking.External.{Env}
use story.Staking.State.{State, call, query}
use story.Staking.Handlers.{
  process, event_of, failure_of, coded, validator_address, keep_withdraw_address,
  keep_reward_address,
}

module _ {X : Type 0} (env : Env X) where
  unfoldable pub create_validator_body : CreateValidator → Action (State X) Done
  create_validator_body ev = do
    val_evm_addr ← validator_address env ev.validator_cmp_pubkey
    let delegator : String = env.acc_string val_evm_addr
    known ← gets (λ s. env.has_account val_evm_addr s.ext)
    if known then pure tt else call (env.create_account val_evm_addr)
    min_self_delegation ← query env.min_delegation
    msg ← outcome (
        env.new_create_validator (record {
          operator = env.val_string val_evm_addr;
          pubkey = ev.validator_cmp_pubkey;
          value = ev.stake_amount;
          moniker = if str_eq ev.moniker "" then env.val_string val_evm_addr else ev.moniker;
          commission_rate = ev.commission_rate;
          max_commission_rate = ev.max_commission_rate;
          max_commission_change_rate = ev.max_commission_change_rate;
          min_self_delegation = min_self_delegation;
          support_token_type = ev.supports_unlocked;
        }))
    keep_withdraw_address env delegator (env.address_string val_evm_addr)
    keep_reward_address env delegator (env.address_string ev.operator_address)
    call (env.mint_coins ev.stake_amount)
    call (env.send_module_to_account val_evm_addr ev.stake_amount)
    map_err
        (coded (
          (validator_owner_exists, ErrCode.validator_already_exists)
          ∷ (commission_lt_min_rate, ErrCode.invalid_commission_rate)
          ∷ (min_self_delegation_below_min_delegation, ErrCode.invalid_min_self_delegation)
          ∷ (no_token_type_found, ErrCode.invalid_token_type)
          ∷ []))
        (call (env.create_validator msg))

  unfoldable pub process_create_validator : CreateValidator → Action (State X) Done
  process_create_validator ev =
      process (λ _. event_of create_validator_success attributes)
        (failure_of create_validator_failure attributes) (create_validator_body ev)
    where
      attributes : List Attribute
      attributes =
          (block_height, num env.block_height)
          ∷ (validator_cmp_pubkey, bytes ev.validator_cmp_pubkey)
          ∷ (moniker, text ev.moniker)
          ∷ (amount, num ev.stake_amount)
          ∷ (commission_rate, num ev.commission_rate)
          ∷ (max_commission_rate, num ev.max_commission_rate)
          ∷ (max_commission_change_rate, num ev.max_commission_change_rate)
          ∷ (token_type, num ev.supports_unlocked)
          ∷ (sender_address, address ev.operator_address)
          ∷ (tx_hash, bytes ev.tx_hash)
          ∷ []
