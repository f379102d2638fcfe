-- ===== src/Staking/Handlers/Commission.antt =====
-- client/x/evmstaking/keeper/update_commission.go: a validator changes its commission rate, which
-- the event gives in basis points.
use story.Base.{List, [], ◌∷◌}
use story.ErrCode
use story.Errors.{no_validator_found}
use story.Action.{Action, Done, map_err, ◌>>=◌}
use story.Staking.Events.{
  Attribute, update_validator_commission_failure, update_validator_commission_success, block_height,
  validator_cmp_pubkey, commission_rate, tx_hash, num, bytes,
}
use story.Staking.Types.{UpdateValidatorCommission}
use story.Staking.External.{Env}
use story.Staking.State.{State, call, query}
use story.Staking.Handlers.{process, event_of, failure_of, coded, validator_address}

module _ {X : Type 0} (env : Env X) where
  unfoldable pub commission_body : UpdateValidatorCommission → Action (State X) Done
  commission_body ev = do
    val_evm_addr ← validator_address env ev.validator_cmp_pubkey
    validator ←
        map_err (coded ((no_validator_found, ErrCode.validator_not_found) ∷ []))
          (query (env.get_validator val_evm_addr))
    call (
        env.edit_validator (env.val_string val_evm_addr) validator.description ev.commission_rate
          validator.min_self_delegation)

  unfoldable pub process_update_validator_commission :
      UpdateValidatorCommission → Action (State X) Done
  process_update_validator_commission ev =
      process (λ _. event_of update_validator_commission_success attributes)
        (failure_of update_validator_commission_failure attributes) (commission_body ev)
    where
      attributes : List Attribute
      attributes =
          (block_height, num env.block_height)
          ∷ (validator_cmp_pubkey, bytes ev.validator_cmp_pubkey)
          ∷ (commission_rate, num ev.commission_rate)
          ∷ (tx_hash, bytes ev.tx_hash)
          ∷ []
