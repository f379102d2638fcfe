-- ===== src/Engine/Withdrawals.antt =====
-- client/x/evmengine/keeper/proposal_server.go, `compareWithdrawals`, and how msg_server.go takes a
-- finalized payload's withdrawals from the queues.
pub mod Compare
pub mod Agree
use story.Base.{
  ℕ, ◌+◌, ◌-◌, ◌%◌, Bool, true, false, ◌&&◌, not, Option, none, some, List, [], ◌∷◌, ◌++◌, length,
  ltb, ◌==◌, if◌then◌else◌, u32_mod,
}
use story.Action.{
  Outcome, ok, err, panic, Action, Done, pure, fail, fail_if, ask, outcome, ◌>>=◌, ◌>>◌,
}
use story.Staking.Types.{ElWithdrawal}
use story.Staking.Params.{max_withdrawal_per_block}
use story.Staking.Withdrawals.{
  peek_eligible_withdrawals, peek_eligible_reward_withdrawals, dequeue_eligible_withdrawals,
  dequeue_eligible_reward_withdrawals,
}
use story.Engine.State.{Env, State, on_staking}

-- One round of a loop: a nil pointer panics.
abbrev pub same_withdrawal : ElWithdrawal → Option ElWithdrawal → Outcome Done
same_withdrawal e none = panic
same_withdrawal e (some a) =
    if not (e.index == a.index)
    then err []
    else if not (e.validator == a.validator)
    then err []
    else if not (e.address == a.address)
    then err []
    else if not (e.amount == a.amount)
    then err []
    else ok tt

-- A loop from the position reached: it leaves what comes after.
abbrev pub compare_each :
    List ElWithdrawal → List (Option ElWithdrawal) → Outcome (List (Option ElWithdrawal))
compare_each [] actual = ok actual
compare_each (e ∷ es) [] = panic
compare_each (e ∷ es) (a ∷ actual) =
    let rest = compare_each es actual in
    elim (same_withdrawal e a) [ ok _ ↦ rest | err x ↦ err x | panic ↦ panic ]

abbrev pub succeed : {A : Type 0} → Outcome A → Outcome Done
succeed (ok _) = ok tt
succeed (err e) = err e
succeed panic = panic

-- The second loop goes on where the first has stopped.
abbrev pub compare_rest : List ElWithdrawal → Outcome (List (Option ElWithdrawal)) → Outcome Done
compare_rest rewards (ok rest) = succeed (compare_each rewards rest)
compare_rest rewards (err e) = err e
compare_rest rewards panic = panic

abbrev pub compare_all :
    List ElWithdrawal → List ElWithdrawal → List (Option ElWithdrawal) → Outcome Done
compare_all expected rewards actual = compare_rest rewards (compare_each expected actual)

-- What is left of the maximum for rewards, as `uint32`
abbrev pub room_left : {A : Type 0} → ℕ → List A → ℕ
room_left max ws = (max + u32_mod - length ws % u32_mod) % u32_mod

unfoldable pub compare_found :
    List (Option ElWithdrawal) → List ElWithdrawal → List ElWithdrawal → Outcome Done
compare_found actual expected rewards =
    if not (length expected + length rewards == length actual)
    then err []
    else compare_all expected rewards actual

module _ {X : Type 0} (env : Env X) where
  unfoldable pub compare_with_rewards :
      List (Option ElWithdrawal) → ℕ → List ElWithdrawal → Action (State X) Done
  compare_with_rewards actual max expected = do
    fail_if (ltb (length actual) (length expected)) []
    rewards ← ask (λ s.
        peek_eligible_reward_withdrawals env.staking.hex_to_address (room_left max expected)
          s.staking)
    outcome (compare_found actual expected rewards)

  unfoldable pub compare_withdrawals : List (Option ElWithdrawal) → Action (State X) Done
  compare_withdrawals actual = do
    max ← on_staking (max_withdrawal_per_block env.staking)
    expected ← ask (λ s. peek_eligible_withdrawals env.staking.hex_to_address max s.staking)
    compare_with_rewards actual max expected

  -- Finalizing takes the withdrawals from the queues, and compares their number only.
  unfoldable pub dequeue_rewards :
      List (Option ElWithdrawal) → ℕ → List ElWithdrawal → Action (State X) Done
  dequeue_rewards proposed max ws = do
    fail_if (ltb (length proposed) (length ws)) []
    rws ←
        on_staking
          (dequeue_eligible_reward_withdrawals env.staking.hex_to_address (room_left max ws))
    fail_if (not (length ws + length rws == length proposed)) []

  unfoldable pub dequeue_withdrawals : List (Option ElWithdrawal) → Action (State X) Done
  dequeue_withdrawals proposed = do
    max ← on_staking (max_withdrawal_per_block env.staking)
    ws ← on_staking (dequeue_eligible_withdrawals env.staking.hex_to_address max)
    dequeue_rewards proposed max ws
