-- ===== src/Staking/Handlers/Withdraw.antt =====
-- client/x/evmstaking/keeper/withdraw.go, `ProcessWithdraw`: a delegation is undelegated.
use story.Base.{String, List, [], ◌∷◌, ◌==◌, if◌then◌else◌, not}
use story.ErrCode
use story.Errors.{no_validator_found, no_delegation, no_period_delegation}
use story.Action.{Action, Done, pure, gets, fail_if, map_err, ◌>>=◌, ◌>>◌}
use story.Staking.Events.{
  Attribute, undelegate_failure, undelegate_success, amount, block_height, delegator_addr,
  validator_cmp_pubkey, delegation_id, sender_address, tx_hash, num, address, bytes, text,
}
use story.Staking.Types.{Withdraw}
use story.Staking.External.{Env}
use story.Staking.State.{State, call, query}
use story.Staking.Handlers.{
  process, event_of, failure_of, coded, validator_address, is_singularity, check_operator,
}

module _ {X : Type 0} (env : Env X) where
  -- After the singularity. The result is the amount that was undelegated, in decimal.
  unfoldable pub withdraw_after : Withdraw → Action (State X) String
  withdraw_after ev = do
    val_evm_addr ← validator_address env ev.validator_cmp_pubkey
    check_operator env ev.delegator ev.operator_address
    known ← gets (λ s. env.has_account ev.delegator s.ext)
    fail_if (not known) []
    locked_type ← query env.locked_token_type
    val ←
        map_err (coded ((no_validator_found, ErrCode.validator_not_found) ∷ []))
          (query (env.get_validator val_evm_addr))
    let del_id : String =
        if val.support_token_type == locked_type
        then env.flexible_period_delegation_id
        else env.decimal ev.delegation_id
    actual ←
        map_err
          (coded (
            (no_validator_found, ErrCode.validator_not_found)
            ∷ (no_delegation, ErrCode.delegation_not_found)
            ∷ (no_period_delegation, ErrCode.period_delegation_not_found)
            ∷ []))
          (call (
            env.undelegate (env.acc_string ev.delegator) (env.val_string val_evm_addr) del_id
              ev.stake_amount))
    pure (env.decimal actual)

  unfoldable pub withdraw_body : Withdraw → Action (State X) String
  withdraw_body ev = do early ← is_singularity env; if early then pure "" else withdraw_after ev

  unfoldable pub process_withdraw : Withdraw → Action (State X) Done
  process_withdraw ev =
      process (λ actual. event_of undelegate_success ((amount, text actual) ∷ attributes))
        (failure_of undelegate_failure ((amount, num ev.stake_amount) ∷ attributes))
        (withdraw_body ev)
    where
      attributes : List Attribute
      attributes =
          (block_height, num env.block_height)
          ∷ (delegator_addr, address ev.delegator)
          ∷ (validator_cmp_pubkey, bytes ev.validator_cmp_pubkey)
          ∷ (delegation_id, num ev.delegation_id)
          ∷ (sender_address, address ev.operator_address)
          ∷ (tx_hash, bytes ev.tx_hash)
          ∷ []
