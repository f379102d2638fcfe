-- ===== src/Tests/Unstakes.antt =====
-- One matured unbonding at height 100.
use story.Base.{◌+◌, ◌≤◌, refl, some, List, [], ◌∷◌, arith}
use story.Queue.{enqueue}
use story.Queue.Represents.{Represents}
use story.Staking.Types.{Withdrawal}
use story.Staking.External.{UnbondedEntry}
use story.Staking.State.{State}
use story.Staking.Withdrawals.{add_withdrawal_to_queue}
use story.Staking.Rewards.{val_bech32_to_evm}
use story.Netconf.{is_v121, get_upgrade_height}
use story.Staking.Sweep.Adds.{queued}
use story.Staking.Unstake.{
  withdraw_entry, residue_entry, withdraw_residue, for_entries, process_unstake_withdrawals,
}
use story.Staking.Unstake.Entries.{Owed}
use story.Staking.Unstake.Owed.{process_unstake_withdrawals-Owed}
use story.Tests.Data.{World, staking_env, staking_state, unstaked, queue_of-Represents}

abbrev matured : List UnbondedEntry
matured = record { delegator_address = "del"; validator_address = "val"; amount = 8 } ∷ []

abbrev before : State World
before = record staking_state { delegator_withdraw_address = λ _. some "0xdd" }

abbrev after : State World
after = (process_unstake_withdrawals staking_env matured before).1

process_unstake_withdrawals-Owed_example :
    (new : List Withdrawal) × Owed staking_env before.delegator_withdraw_address matured new
    × Represents after.withdrawal_queue 0 (unstaked ∷ new)
    × (queued after ≤ queued before + 1)
unfolding process_unstake_withdrawals for_entries withdraw_entry residue_entry withdraw_residue
    val_bech32_to_evm add_withdrawal_to_queue enqueue is_v121 get_upgrade_height
process_unstake_withdrawals-Owed_example =
    process_unstake_withdrawals-Owed staking_env matured before after 0 (unstaked ∷ [])
      (queue_of-Represents unstaked) (omega arith) refl
