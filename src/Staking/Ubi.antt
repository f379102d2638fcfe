-- ===== src/Staking/Ubi.antt =====
-- client/x/evmstaking/keeper/ubi.go: the universal basic income that has reached the minimum is
-- burned here and queued for the execution layer.
use story.Base.{ℕ, ltb, if◌then◌else◌}
use story.Action.{Action, Done, pure, outcome, ◌>>=◌, ◌>>◌}
use story.Staking.Types.{Params, new_withdrawal, ubi}
use story.Staking.External.{Env}
use story.Staking.State.{State, call, query}
use story.Staking.Params.{get_params}
use story.Staking.Withdrawals.{add_withdrawal_to_queue}

module _ {X : Type 0} (env : Env X) where
  -- The balance at the test is what is queued; the coin withdrawn is what is burned.
  unfoldable pub withdraw_ubi : Params → ℕ → Action (State X) Done
  withdraw_ubi params balance = do
    coin ← call env.withdraw_ubi_to_module
    call (env.burn_coins coin)
    add_withdrawal_to_queue
        (new_withdrawal env.block_height params.ubi_withdraw_address balance ubi "")

  unfoldable pub process_ubi_withdrawal : Action (State X) Done
  process_ubi_withdrawal = do
    params ← get_params env
    ubi_balance ← query env.ubi_balance
    balance ← outcome (env.uint64 ubi_balance)
    (if ltb balance params.min_partial_withdrawal_amount
        then pure tt
        else withdraw_ubi params balance)
