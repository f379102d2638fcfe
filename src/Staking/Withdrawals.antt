-- ===== src/Staking/Withdrawals.antt =====
-- client/x/evmstaking/keeper/withdrawal_queue.go and reward_queue.go: what a block takes from the two
-- queues of withdrawals.
pub mod Numbered
pub mod Trace
use story.Base.{ℕ, zero, suc, ◌+◌, ◌%◌, String, List, [], ◌∷◌, ltb, if◌then◌else◌, u64_mod}
use story.Errors.{is, empty_queue, out_of_bounds_queue}
use story.Action.{Outcome, ok, err, panic, Action, Done}
use story.Queue.{Queue, enqueue, dequeue, get, front_of, is_empty, iterate}
use story.Staking.Events.{
  Event, num, text, withdraw, creation_height, amount, withdraw_execution_address, withdrawal_type,
  withdrawal_validator_address,
}
use story.Staking.Types.{Withdrawal, ElWithdrawal, type_number}
use story.Staking.State.{State, on_withdrawals, on_rewards}

module _ {X : Type 0} where
  unfoldable pub add_withdrawal_to_queue : Withdrawal → Action (State X) Done
  add_withdrawal_to_queue w = on_withdrawals (enqueue w)

  unfoldable pub add_reward_withdrawal_to_queue : Withdrawal → Action (State X) Done
  add_reward_withdrawal_to_queue w = on_rewards (enqueue w)

-- The event of a withdrawal that leaves its queue.
abbrev pub withdraw_event : Withdrawal → Event
withdraw_event w = record {
  type = withdraw;
  attributes =
      (creation_height, num w.creation_height)
      ∷ (amount, num w.amount)
      ∷ (withdraw_execution_address, text w.execution_address)
      ∷ (withdrawal_type, num (type_number w.withdrawal_type))
      ∷ (withdrawal_validator_address, text w.validator_address)
      ∷ [];
}

module _ (hex_to_address : String → ℕ) where
  -- The withdrawal as the execution layer sees it, with its number in the queue.
  abbrev pub to_el : ℕ → Withdrawal → ElWithdrawal
  to_el n w = record {
    index = n % u64_mod;
    validator = type_number w.withdrawal_type;
    address = hex_to_address w.execution_address;
    amount = w.amount;
  }

  -- The loop of `DequeueEligibleWithdrawals` with `n` rounds left, at round `i`, over the queue and
  -- the events. An empty queue ends it; any other error is returned without the withdrawals.
  unfoldable pub dequeue_loop :
      ℕ → ℕ → ℕ → Action (Queue Withdrawal × List Event) (List ElWithdrawal)
  dequeue_loop front zero i s = (ok [], s)
  dequeue_loop front (suc n) i (q, es) =
      let (r, q') = dequeue q in
      elim r [
        | err e ↦ (if is empty_queue e then ok [] else err e, (q', es))
        | panic ↦ (panic, (q', es))
        | ok w ↦
            let (r', s') = dequeue_loop front n (suc i) (q', withdraw_event w ∷ es) in
            (elim r' [ ok ws ↦ ok (to_el (front + i) w ∷ ws) | err e ↦ err e | panic ↦ panic ], s')
      ]

  -- The rest of `DequeueEligibleWithdrawals`, for one queue
  unfoldable pub dequeue_eligible : ℕ → Action (Queue Withdrawal × List Event) (List ElWithdrawal)
  dequeue_eligible max s = elim (front_of s.0) [
    | err e ↦ (err e, s)
    | panic ↦ (panic, s)
    | ok front ↦ dequeue_loop front max 0 s
  ]

  unfoldable pub dequeue_eligible_withdrawals :
      {X : Type 0} → ℕ → Action (State X) (List ElWithdrawal)
  dequeue_eligible_withdrawals max s =
      let (r, (q, es)) = dequeue_eligible max (s.withdrawal_queue, s.events) in
      (r, record s { withdrawal_queue = q; events = es })

  unfoldable pub dequeue_eligible_reward_withdrawals :
      {X : Type 0} → ℕ → Action (State X) (List ElWithdrawal)
  dequeue_eligible_reward_withdrawals max s =
      let (r, (q, es)) = dequeue_eligible max (s.reward_withdrawal_queue, s.events) in
      (r, record s { reward_withdrawal_queue = q; events = es })

  -- The loop of `PeekEligibleWithdrawals` with `n` rounds left, at round `i`.
  unfoldable pub peek_loop : Queue Withdrawal → ℕ → ℕ → ℕ → Outcome (List ElWithdrawal)
  peek_loop q front zero i = ok []
  peek_loop q front (suc n) i = elim (get q i) [
    | err e ↦ if is out_of_bounds_queue e then ok [] else err e
    | panic ↦ panic
    | ok w ↦ elim (peek_loop q front n (suc i)) [
      | ok ws ↦ ok (to_el (front + i) w ∷ ws)
      | err e ↦ err e
      | panic ↦ panic
    ]
  ]

  unfoldable pub peek_eligible : ℕ → Queue Withdrawal → Outcome (List ElWithdrawal)
  peek_eligible max q =
      if is_empty q
      then ok []
      else elim (front_of q) [ err e ↦ err e | panic ↦ panic | ok front ↦ peek_loop q front max 0 ]

  unfoldable pub peek_eligible_withdrawals :
      {X : Type 0} → ℕ → State X → Outcome (List ElWithdrawal)
  peek_eligible_withdrawals max s = peek_eligible max s.withdrawal_queue

  unfoldable pub peek_eligible_reward_withdrawals :
      {X : Type 0} → ℕ → State X → Outcome (List ElWithdrawal)
  peek_eligible_reward_withdrawals max s = peek_eligible max s.reward_withdrawal_queue

pub get_all_withdrawals : {X : Type 0} → State X → List Withdrawal
get_all_withdrawals s = iterate s.withdrawal_queue

pub get_all_reward_withdrawals : {X : Type 0} → State X → List Withdrawal
get_all_reward_withdrawals s = iterate s.reward_withdrawal_queue

-- The loop of `GetWithdrawals` over what the iterator yields
retrieve : ℕ → ℕ → List Withdrawal → List Withdrawal
retrieve i max [] = []
retrieve i max (w ∷ ws) = let rest = retrieve (i + 1) max ws in if ltb i max then w ∷ rest else []

pub get_withdrawals : {X : Type 0} → ℕ → State X → List Withdrawal
unfolding retrieve
get_withdrawals max s = retrieve 0 max (iterate s.withdrawal_queue)

pub get_reward_withdrawals : {X : Type 0} → ℕ → State X → List Withdrawal
unfolding retrieve
get_reward_withdrawals max s = retrieve 0 max (iterate s.reward_withdrawal_queue)
