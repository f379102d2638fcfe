-- ===== src/Staking/Rewards.antt =====
-- client/x/evmstaking/keeper/withdraw.go, `ProcessEligibleRewardWithdrawal` and
-- `EnqueueRewardWithdrawal`: rewards that reach the minimum are burned here and queued for the
-- execution layer.
use package.text.Mathlib.Text.{◌==◌ as str_eq}
use story.Base.{
  ℕ, ◌+◌, ◌/◌, ◌%◌, ◌^◌, String, Option, none, some, [], ◌∷◌, leb, ltb, if◌then◌else◌, u64_mod,
}
use story.Errors.{is, cause, not_found, no_validator_commission}
use story.Action.{Outcome, ok, err, panic, Action, Done, pure, gets, outcome, ◌>>=◌, ◌>>◌}
use story.Staking.Types.{new_withdrawal, reward}
use story.Staking.External.{Env, Validator, Delegation}
use story.Staking.State.{State, call, query}
use story.Staking.Withdrawals.{add_reward_withdrawal_to_queue}

-- `Get` of a map of addresses
abbrev pub address_of : Option String → Outcome String
address_of none = err (cause not_found ∷ [])
address_of (some a) = ok a

-- A validator without commission is no failure.
abbrev pub no_commission : {S : Type 0} → Action S ℕ → Action S ℕ
no_commission m s =
    let (r, s') = m s in
    (
      elim r [
        | ok a ↦ ok a
        | err e ↦ if is no_validator_commission e then ok 0 else err e
        | panic ↦ panic
      ],
      s',
    )

module _ {X : Type 0} (env : Env X) where
  -- `utils.Bech32ValidatorAddressToEvmAddress`
  unfoldable pub val_bech32_to_evm : String → Action (State X) String
  val_bech32_to_evm val = do addr ← outcome (env.val_from_bech32 val); pure (env.hex_encode addr)

  unfoldable pub enqueue_reward_withdrawal : String → String → ℕ → Action (State X) Done
  enqueue_reward_withdrawal del_bech32 val_bech32 claimed = do
    val_addr ← outcome (env.val_from_bech32 val_bech32)
    del_addr ← outcome (env.acc_from_bech32 del_bech32)
    rewards ← call (env.withdraw_delegation_rewards del_addr val_addr)
    commission ←
        (if str_eq del_bech32 (env.acc_string val_addr)
          then no_commission (call (env.withdraw_validator_commission val_addr))
          else pure 0)
    extra ← (if ltb 0 claimed then outcome (env.coin_of_int64 claimed) else pure 0)
    let total : ℕ = rewards + commission + extra
    amount ← outcome (env.uint64 total)
    evm_addr ← gets (λ s. s.delegator_reward_address del_bech32)
    withdrawal_addr ← outcome (address_of evm_addr)
    val_evm_addr ← val_bech32_to_evm val_bech32
    call (env.send_account_to_module del_addr total)
    call (env.burn_coins total)
    add_reward_withdrawal_to_queue
        (new_withdrawal env.block_height withdrawal_addr amount reward val_evm_addr)

  unfoldable pub process_eligible_reward_withdrawal :
      ℕ → Validator → Delegation → Action (State X) Done
  process_eligible_reward_withdrawal min_amount validator delegation = do
    val_addr ← outcome (env.validator_codec validator.operator)
    period ← call (env.increment_validator_period validator)
    rewards ← call (env.calculate_delegation_rewards validator delegation period)
    commission ←
        (if str_eq delegation.delegator_address (env.acc_string val_addr)
          then query (env.accumulated_commission val_addr)
          else pure 0)
    addr ← outcome (env.acc_from_bech32 delegation.delegator_address)
    unclaimed ← outcome (env.uint64 ((rewards + commission) / 10 ^ 18))
    spendable ← gets (λ s. env.spendable_coin addr s.ext)
    claimed ← outcome (env.uint64 spendable)
    (if leb min_amount ((unclaimed + claimed) % u64_mod)
        then enqueue_reward_withdrawal delegation.delegator_address (env.val_string val_addr)
            claimed
        else pure tt)
