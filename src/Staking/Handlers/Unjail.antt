-- ===== src/Staking/Handlers/Unjail.antt =====
-- client/x/evmstaking/keeper/unjail.go: a jailed validator returns.
use story.Base.{ℕ, List, [], ◌∷◌}
use story.ErrCode
use story.Errors.{
  no_validator_for_address, missing_self_delegation, validator_not_jailed, validator_jailed,
}
use story.Action.{Action, Done, map_err, ◌>>=◌, ◌>>◌}
use story.Staking.Events.{
  Attribute, unjail_failure, unjail_success, block_height, validator_cmp_pubkey, sender_address,
  tx_hash, num, address, bytes,
}
use story.Staking.Types.{Unjail}
use story.Staking.External.{Env}
use story.Staking.State.{State, call}
use story.Staking.Handlers.{process, event_of, failure_of, coded, validator_address, check_operator}

module _ {X : Type 0} (env : Env X) where
  -- Once the validator's address is known
  unfoldable pub unjail_as : Unjail → ℕ → Action (State X) Done
  unjail_as ev val_evm_addr = do
    check_operator env val_evm_addr ev.unjailer
    map_err
        (coded (
          (no_validator_for_address, ErrCode.validator_not_found)
          ∷ (missing_self_delegation, ErrCode.missing_self_delegation)
          ∷ (validator_not_jailed, ErrCode.validator_not_jailed)
          ∷ (validator_jailed, ErrCode.validator_still_jailed)
          ∷ []))
        (call (env.unjail val_evm_addr))

  unfoldable pub unjail_body : Unjail → Action (State X) Done
  unfolding unjail_as
  unjail_body ev = do
    val_evm_addr ← validator_address env ev.validator_cmp_pubkey
    unjail_as ev val_evm_addr

  unfoldable pub process_unjail : Unjail → Action (State X) Done
  process_unjail ev =
      process (λ _. event_of unjail_success attributes) (failure_of unjail_failure attributes)
        (unjail_body ev)
    where
      attributes : List Attribute
      attributes =
          (block_height, num env.block_height)
          ∷ (validator_cmp_pubkey, bytes ev.validator_cmp_pubkey)
          ∷ (sender_address, address ev.unjailer)
          ∷ (tx_hash, bytes ev.tx_hash)
          ∷ []
