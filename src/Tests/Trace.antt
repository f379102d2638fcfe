-- ===== src/Tests/Trace.antt =====
-- The theorem on any number of blocks of the withdrawal queues, at a short run.
use story.Base.{ℕ, refl, List, [], ◌∷◌, String, arith}
use story.Queue.{front_of, enqueue, dequeue, is_empty, len}
use story.Staking.State.{State}
use story.Staking.Types.{ElWithdrawal}
use story.Staking.Withdrawals.{
  add_withdrawal_to_queue, dequeue_eligible_withdrawals, dequeue_eligible_reward_withdrawals,
  dequeue_eligible, dequeue_loop,
}
use story.Staking.Withdrawals.Numbered.{numbered}
use story.Staking.Withdrawals.Trace.{
  Trace, done, add_withdrawal, take_withdrawals, take_rewards, Fed, Trace-Fed,
}
use story.Tests.Data.{World, staking_state, unstaked, rewarded, queue_of-Represents}

abbrev hex_of : String → ℕ
hex_of text = 7

-- One more withdrawal is queued, one is paid, and the rewards are paid.
abbrev queued : State World
queued = (add_withdrawal_to_queue rewarded staking_state).1

abbrev paid : State World
paid = (dequeue_eligible_withdrawals hex_of 1 queued).1

abbrev ended : State World
ended = (dequeue_eligible_reward_withdrawals hex_of 3 paid).1

abbrev first : List ElWithdrawal
first = numbered hex_of 0 (unstaked ∷ [])

abbrev second : List ElWithdrawal
second = numbered hex_of 0 (rewarded ∷ [])

run : Trace hex_of staking_state (rewarded ∷ []) first [] second ended
unfolding add_withdrawal_to_queue dequeue_eligible_withdrawals dequeue_eligible_reward_withdrawals
    dequeue_eligible front_of enqueue dequeue_loop dequeue is_empty len
run = add_withdrawal staking_state ended rewarded [] [] first second (
    take_withdrawals queued paid ended 1 [] [] first [] second refl
      (take_rewards paid ended ended 3 [] [] second [] [] refl (done ended)))

Trace-Fed_example :
    Fed hex_of 0 (unstaked ∷ []) (rewarded ∷ []) first ended.withdrawal_queue
    × Fed hex_of 0 (rewarded ∷ []) [] second ended.reward_withdrawal_queue
Trace-Fed_example =
    Trace-Fed hex_of staking_state ended (rewarded ∷ []) [] first second 0 0 (unstaked ∷ [])
      (rewarded ∷ []) run (queue_of-Represents unstaked) (queue_of-Represents rewarded)
      (omega arith) (omega arith)
