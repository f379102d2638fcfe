-- ===== src/Staking/Handlers/Redelegate.antt =====
-- client/x/evmstaking/keeper/redelegation.go: a delegation moves to another validator.
use story.Base.{String, List, [], ◌∷◌, ◌==◌, if◌then◌else◌}
use story.ErrCode
use story.Errors.{
  no_validator_found, self_redelegation, token_type_mismatch, no_delegation, no_period_delegation,
}
use story.Action.{Action, Done, pure, outcome, map_err, ◌>>=◌, ◌>>◌}
use story.Staking.Events.{
  Attribute, redelegate_failure, redelegate_success, amount, block_height, delegator_addr,
  src_validator_cmp_pubkey, dst_validator_cmp_pubkey, delegation_id, sender_address, tx_hash, num,
  address, bytes, text,
}
use story.Staking.Types.{Redelegate}
use story.Staking.External.{Env}
use story.Staking.State.{State, call, query}
use story.Staking.Handlers.{
  process, event_of, failure_of, coded, pub_key_bytes_to_cosmos, is_singularity, check_operator,
}

module _ {X : Type 0} (env : Env X) where
  -- After the singularity. The result is the amount that was moved, in decimal.
  unfoldable pub redelegate_after : Redelegate → Action (State X) String
  redelegate_after ev = do
    src_pubkey ← outcome (pub_key_bytes_to_cosmos ev.validator_src_cmp_pubkey)
    dst_pubkey ← outcome (pub_key_bytes_to_cosmos ev.validator_dst_cmp_pubkey)
    src_addr ← outcome (env.pubkey_to_address src_pubkey)
    dst_addr ← outcome (env.pubkey_to_address dst_pubkey)
    check_operator env ev.delegator ev.operator_address
    locked_type ← query env.locked_token_type
    val_src ←
        map_err (coded ((no_validator_found, ErrCode.validator_not_found) ∷ []))
          (query (env.get_validator src_addr))
    let del_id : String =
        if val_src.support_token_type == locked_type
        then env.flexible_period_delegation_id
        else env.decimal ev.delegation_id
    moved ←
        map_err
          (coded (
            (self_redelegation, ErrCode.self_redelegation)
            ∷ (no_validator_found, ErrCode.validator_not_found)
            ∷ (token_type_mismatch, ErrCode.token_type_mismatch)
            ∷ (no_delegation, ErrCode.delegation_not_found)
            ∷ (no_period_delegation, ErrCode.period_delegation_not_found)
            ∷ []))
          (call (
            env.begin_redelegate (env.acc_string ev.delegator) (env.val_string src_addr)
              (env.val_string dst_addr) del_id ev.amount))
    pure (env.decimal moved)

  unfoldable pub redelegate_body : Redelegate → Action (State X) String
  redelegate_body ev = do early ← is_singularity env; if early then pure "" else redelegate_after ev

  unfoldable pub process_redelegate : Redelegate → Action (State X) Done
  process_redelegate ev =
      process (λ actual. event_of redelegate_success ((amount, text actual) ∷ attributes))
        (failure_of redelegate_failure ((amount, num ev.amount) ∷ attributes)) (redelegate_body ev)
    where
      attributes : List Attribute
      attributes =
          (block_height, num env.block_height)
          ∷ (delegator_addr, address ev.delegator)
          ∷ (src_validator_cmp_pubkey, bytes ev.validator_src_cmp_pubkey)
          ∷ (dst_validator_cmp_pubkey, bytes ev.validator_dst_cmp_pubkey)
          ∷ (delegation_id, num ev.delegation_id)
          ∷ (sender_address, address ev.operator_address)
          ∷ (tx_hash, bytes ev.tx_hash)
          ∷ []
