-- ===== src/Engine/Build/Peeked.antt =====
-- keeper.go's `peekEligibleWithdrawals` on the proposer's side: the withdrawals of a payload, and its
-- time, against the checks of the other validators.
use story.Base.{
  ℕ, ◌+◌, ◌-◌, ◌≤◌, ◌<◌, ◌≡◌, refl, ap, some, String, List, [], ◌∷◌, ◌++◌, take, length, u32_mod,
  u64_mod, arith,
}
use story.Action.{ok}
use story.Queue.Represents.{Represents}
use story.Staking.Types.{ElWithdrawal, Withdrawal}
use story.Staking.Params.{max_withdrawal_per_block}
use story.Staking.Withdrawals.Numbered.{
  numbered, peek_eligible_withdrawals-Represents, peek_eligible_reward_withdrawals-Represents,
}
use story.Engine.Types.{ExecutionHead}
use story.Engine.State.{Env, State}
use story.Engine.Payload.{min_timestamp, max_timestamp}
use story.Engine.Withdrawals.{compare_withdrawals}
use story.Engine.Withdrawals.Compare.{pointers}
use story.Engine.Withdrawals.Agree.{room, compare_withdrawals_iff}
use story.Engine.Build.{build_timestamp, peek_withdrawals}

-- The time that a build asks for is in the window that validators accept whose block is not earlier
-- than the one that the build was started at.
pub build_timestamp_window :
    {X : Type 0} (env : Env X) (head : ExecutionHead) (time : ℕ)
    → head.block_time + 1 < u64_mod
    → time ≤ env.staking.block_time
    → (min_timestamp env head ≤ build_timestamp env head time)
      × (build_timestamp env head time ≤ max_timestamp env head)
build_timestamp_window env head time h b = (ground arith, ground arith)

map-append : (xs ys : List ElWithdrawal) → pointers (xs ++ ys) ≡ pointers xs ++ pointers ys
map-append [] ys = refl
map-append (x ∷ xs) ys = ap (◌∷◌ (some x)) (map-append xs ys)

-- What a block owes of two queues: the first `max` entries, rewards after the others.
abbrev pub owed_by :
    (String → ℕ) → ℕ → ℕ → ℕ → List Withdrawal → List Withdrawal → List ElWithdrawal
owed_by hex max f g xs ys =
    numbered hex f (take max xs) ++ numbered hex g (take (max - length (take max xs)) ys)

module _ {X : Type 0} (env : Env X) (s : State X) (max f g : ℕ) (xs ys : List Withdrawal)
    (max_eq : (max_withdrawal_per_block env.staking s.staking).0 ≡ ok max) (small : max < u32_mod)
    (queue : Represents s.staking.withdrawal_queue f xs)
    (rewards : Represents s.staking.reward_withdrawal_queue g ys) where
  pub peek_withdrawals-owed_by :
      peek_withdrawals env s ≡ ok (owed_by env.staking.hex_to_address max f g xs ys)
  unfolding peek_withdrawals
  peek_withdrawals-owed_by =
      let hex = env.staking.hex_to_address in
      let peek_front =
        peek_eligible_withdrawals-Represents hex max f s.staking xs (omega arith) queue in
      let peek_back =
        peek_eligible_reward_withdrawals-Represents hex (max - length (take max xs)) g s.staking ys
          (omega arith) rewards in
      let left =
        room env s max f g xs ys (pointers (owed_by hex max f g xs ys)) max_eq small queue
          rewards in
      rw (peek_withdrawals, max_eq, peek_front, left, peek_back) refl

  pub compare_withdrawals-owed_by :
      (compare_withdrawals env (pointers (owed_by env.staking.hex_to_address max f g xs ys)) s).0
      ≡ ok tt
  compare_withdrawals-owed_by =
      let hex = env.staking.hex_to_address in
      let front = numbered hex f (take max xs) in
      let back = numbered hex g (take (max - length (take max xs)) ys) in
      (compare_withdrawals_iff env s max f g xs ys (pointers (front ++ back)) max_eq small queue
          rewards).1
        (map-append front back)

  -- What a proposer puts into a payload passes the comparison of a validator in the same state.
  pub compare_withdrawals-peek_withdrawals :
      (ws : List ElWithdrawal) × (peek_withdrawals env s ≡ ok ws)
      × ((compare_withdrawals env (pointers ws) s).0 ≡ ok tt)
  compare_withdrawals-peek_withdrawals = (
    owed_by env.staking.hex_to_address max f g xs ys,
    peek_withdrawals-owed_by,
    compare_withdrawals-owed_by,
  )
