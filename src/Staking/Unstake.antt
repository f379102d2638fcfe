-- ===== src/Staking/Unstake.antt =====
-- client/x/evmstaking/keeper/withdraw.go, `ProcessUnstakeWithdrawals`: matured unbondings are burned
-- here and queued for the execution layer, and so are the rewards left on the account.
pub mod Entries
pub mod Owed
use story.Base.{ℕ, Bool, true, false, ◌&&◌, not, String, List, [], ◌∷◌, ◌==◌, if◌then◌else◌}
use story.Errors.{is, no_delegation}
use story.Action.{Outcome, ok, err, panic, Action, Done, pure, gets, outcome, ◌>>=◌, ◌>>◌}
use story.Netconf.{is_v121}
use story.Staking.Types.{new_withdrawal, unstake, reward}
use story.Staking.External.{Env, UnbondedEntry, Delegation}
use story.Staking.State.{State, call}
use story.Staking.Withdrawals.{add_withdrawal_to_queue, add_reward_withdrawal_to_queue}
use story.Staking.Rewards.{address_of, no_commission, val_bech32_to_evm}

-- Whether the delegation is gone; any other error is passed on.
abbrev pub totally_unstaked : Outcome Delegation → Outcome Bool
totally_unstaked (ok d) = ok false
totally_unstaked (err e) = if is no_delegation e then ok true else err e
totally_unstaked panic = panic

module _ {X : Type 0} (env : Env X) where
  -- The body of the first loop
  unfoldable pub withdraw_entry : UnbondedEntry → Action (State X) Done
  withdraw_entry entry = do
    del_addr ← outcome (env.acc_from_bech32 entry.delegator_address)
    val_evm_addr ← val_bech32_to_evm env entry.validator_address
    evm_addr ← gets (λ s. s.delegator_withdraw_address entry.delegator_address)
    withdraw_addr ← outcome (address_of evm_addr)
    amount ← outcome (env.uint64 entry.amount)
    call (env.send_account_to_module del_addr amount)
    call (env.burn_coins amount)
    add_withdrawal_to_queue
        (new_withdrawal env.block_height withdraw_addr amount unstake val_evm_addr)

  unfoldable pub burn_residue : UnbondedEntry → ℕ → ℕ → String → Action (State X) Done
  burn_residue entry del_addr residue val_evm_addr = do
    call (env.send_account_to_module del_addr residue)
    call (env.burn_coins residue)
    evm_addr ← gets (λ s. s.delegator_reward_address entry.delegator_address)
    rewards_addr ← outcome (address_of evm_addr)
    add_reward_withdrawal_to_queue
        (new_withdrawal env.block_height rewards_addr residue reward val_evm_addr)

  -- The end of the second loop: what is left on the account
  unfoldable pub withdraw_residue : UnbondedEntry → ℕ → String → Action (State X) Done
  withdraw_residue entry del_addr val_evm_addr = do
    spendable ← gets (λ s. env.spendable_coin del_addr s.ext)
    residue ← outcome (env.uint64 spendable)
    (if residue == 0 then pure tt else burn_residue entry del_addr residue val_evm_addr)

  -- The body of the second loop
  unfoldable pub residue_entry : UnbondedEntry → Action (State X) Done
  residue_entry entry = do
    del_addr ← outcome (env.acc_from_bech32 entry.delegator_address)
    val_addr ← outcome (env.val_from_bech32 entry.validator_address)
    val_evm_addr ← val_bech32_to_evm env entry.validator_address
    unstaked ← (λ s. (totally_unstaked (env.get_delegation del_addr val_addr s.ext), s))
    (if unstaked && (del_addr == val_addr)
        then (no_commission (call (env.withdraw_validator_commission val_addr)) >> pure tt)
        else pure tt)
    v121 ← outcome (is_v121 env.chain_id env.block_height)
    (if not unstaked && not v121 then pure tt else withdraw_residue entry del_addr val_evm_addr)

  unfoldable pub for_entries :
      (UnbondedEntry → Action (State X) Done) → List UnbondedEntry → Action (State X) Done
  for_entries body [] = pure tt
  for_entries body (e ∷ es) = let rest = for_entries body es in body e >> rest

  unfoldable pub process_unstake_withdrawals : List UnbondedEntry → Action (State X) Done
  process_unstake_withdrawals entries = do
    for_entries withdraw_entry entries
    for_entries residue_entry entries
