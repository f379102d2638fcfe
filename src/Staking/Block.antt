-- ===== src/Staking/Block.antt =====
-- client/x/evmstaking/keeper/abci.go: the end of a block.
pub mod Singularity
use story.Base.{ℕ, Bool, List, [], if◌then◌else◌}
use story.Action.{Action, pure, ◌>>=◌, ◌>>◌}
use story.Staking.External.{Env, UnbondedEntry}
use story.Staking.State.{State, call}
use story.Staking.Handlers.{is_singularity}
use story.Staking.Unstake.{process_unstake_withdrawals}
use story.Staking.Sweep.{process_reward_withdrawals}
use story.Staking.Ubi.{process_ubi_withdrawal}

-- A validator's key and its power
abbrev pub ValidatorUpdates : Type 0
ValidatorUpdates = List (List ℕ × ℕ)

module _ {X : Type 0} (env : Env X) where
  unfoldable pub end_block_steps : Action (State X) ValidatorUpdates
  end_block_steps = do
    p ← call env.end_blocker_with_unbonded_entries
    process_unstake_withdrawals env p.1
    process_reward_withdrawals env
    process_ubi_withdrawal env
    pure p.0

  unfoldable pub end_block : Action (State X) ValidatorUpdates
  end_block = do
    singularity ← is_singularity env
    (if singularity then pure [] else end_block_steps)
