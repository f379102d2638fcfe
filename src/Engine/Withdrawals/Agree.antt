-- ===== src/Engine/Withdrawals/Agree.antt =====
-- A payload's withdrawals pass the comparison exactly when they are the front of the two queues, and
-- what passes is what finalizing takes.
use story.Base.{
  ℕ, ◌+◌, ◌-◌, ◌<◌, ◌≡◌, ◌↔◌, refl, sym, ap, subst, ◌∙◌, Bool, true, false, not, Option, some, List,
  [], ◌++◌, length, length-map, length-take, take, drop, ltb, ◌==◌, if◌then◌else◌, u32_mod, arith,
}
use story.Action.{ok, err, fail_if, ask, outcome, ◌>>=◌}
use story.Action.Laws.{bind_ok}
use story.Staking.Withdrawals.{
  peek_eligible_withdrawals, peek_eligible_reward_withdrawals, dequeue_eligible_withdrawals,
  dequeue_eligible_reward_withdrawals,
}
use story.Queue.Represents.{Represents}
use story.Staking.Types.{ElWithdrawal, Withdrawal}
use story.Staking.Params.{max_withdrawal_per_block}
use story.Staking.Withdrawals.Numbered.{
  numbered, length-numbered, peek_eligible_withdrawals-Represents,
  peek_eligible_reward_withdrawals-Represents, dequeue_eligible_withdrawals-Represents,
  dequeue_eligible_reward_withdrawals-Represents,
}
use story.Staking.State.{State as StakingState}
use story.Engine.State.{Env, State, on_staking}
use story.Engine.Withdrawals.{
  room_left, compare_found, compare_with_rewards, compare_withdrawals, dequeue_rewards,
  dequeue_withdrawals,
}
use story.Engine.Withdrawals.Compare.{pointers, length-pointers, compare_all_iff}

module _ {X : Type 0} (env : Env X) (s : State X) (max f g : ℕ) (xs ys : List Withdrawal)
    (actual : List (Option ElWithdrawal))
    (max_eq : (max_withdrawal_per_block env.staking s.staking).0 ≡ ok max) (small : max < u32_mod)
    (queue : Represents s.staking.withdrawal_queue f xs)
    (rewards : Represents s.staking.reward_withdrawal_queue g ys) where
  -- What the queues' front is to the execution layer
  abbrev due : List ElWithdrawal
  due = numbered env.staking.hex_to_address f (take max xs)

  abbrev due_rewards : List ElWithdrawal
  due_rewards = numbered env.staking.hex_to_address g (take (max - length (take max xs)) ys)

  pub room : room_left max due ≡ max - length (take max xs)
  room =
      omega (arith, length-numbered env.staking.hex_to_address f (take max xs), length-take max xs)

  peeked : compare_withdrawals env actual s ≡ compare_with_rewards env actual max due s
  unfolding compare_withdrawals max_withdrawal_per_block
  peeked =
      bind_ok (on_staking (max_withdrawal_per_block env.staking))
        (λ max.
          ask (λ s. peek_eligible_withdrawals env.staking.hex_to_address max s.staking)
          >>= compare_with_rewards env actual max)
        s s max (ap (λ r. (r, s)) max_eq)
      ∙ bind_ok (ask (λ s. peek_eligible_withdrawals env.staking.hex_to_address max s.staking))
          (compare_with_rewards env actual max) s s due
          (ap (λ r. (r, s))
            (peek_eligible_withdrawals-Represents env.staking.hex_to_address max f s.staking xs
              (omega arith) queue))

  rewards_peeked :
      (compare_with_rewards env actual max due s).0
      ≡ (if ltb (length actual) (length due) then err [] else compare_found actual due due_rewards)
  unfolding compare_with_rewards
  rewards_peeked = go (ltb (length actual) (length due))
    where
      go :
          (b : Bool)
          → ((fail_if b [] >>= (λ _.
                ask (λ s.
                  peek_eligible_reward_withdrawals env.staking.hex_to_address
                    (room_left max due)
                    s.staking)
                >>= (λ rewards. outcome (compare_found actual due rewards))))
              s).0
            ≡ (if b then err [] else compare_found actual due due_rewards)
      go true = refl
      go false =
          ap (λ p. p.0)
            (bind_ok
              (ask (λ s.
                peek_eligible_reward_withdrawals env.staking.hex_to_address (room_left max due)
                  s.staking))
              (λ rewards. outcome (compare_found actual due rewards)) s s due_rewards
              (ap (λ r. (r, s))
                (ap (λ n. peek_eligible_reward_withdrawals env.staking.hex_to_address n s.staking)
                    room
                  ∙ peek_eligible_reward_withdrawals-Represents env.staking.hex_to_address
                      (max - length (take max xs)) g s.staking ys (omega arith) rewards)))

  compared_iff :
      ((if ltb (length actual) (length due) then err [] else compare_found actual due due_rewards)
        ≡ ok tt)
      ↔ (actual ≡ pointers due ++ pointers due_rewards)
  unfolding compare_found
  compared_iff = (
    λ h.
        let len : length due + length due_rewards ≡ length actual = ground arith in
        (compare_all_iff due due_rewards actual len).0 (ground arith),
    λ h.
        let len : length due + length due_rewards ≡ length actual = omega (
          arith,
          ap length h,
          length-pointers due (pointers due_rewards),
          length-map {A = ElWithdrawal} some due_rewards,
        ) in
        let all = (compare_all_iff due due_rewards actual len).1 h in ground arith,
  )

  -- The payload's withdrawals pass exactly when they are the first of the withdrawal queue, and then,
  -- where these do not fill the block, the first of the reward queue, each with its number.
  pub compare_withdrawals_iff :
      ((compare_withdrawals env actual s).0 ≡ ok tt)
      ↔ (actual ≡ pointers due ++ pointers due_rewards)
  compare_withdrawals_iff =
      subst (λ r. (r ≡ ok tt) ↔ (actual ≡ pointers due ++ pointers due_rewards))
        (sym (ap (λ p. p.0) peeked ∙ rewards_peeked)) compared_iff

  taken : StakingState X
  taken = (dequeue_eligible_withdrawals env.staking.hex_to_address max s.staking).1

  took :
      ((dequeue_eligible_withdrawals env.staking.hex_to_address max s.staking).0 ≡ ok due)
      × Represents taken.withdrawal_queue (f + length (take max xs)) (drop max xs)
      × (taken.reward_withdrawal_queue ≡ s.staking.reward_withdrawal_queue)
  unfolding taken
  took =
      let (got, left, told) =
        dequeue_eligible_withdrawals-Represents env.staking.hex_to_address max f s.staking xs
          queue in
      (got, left, ap (λ t. t.reward_withdrawal_queue) told)

  paid : StakingState X
  paid =
      (dequeue_eligible_reward_withdrawals env.staking.hex_to_address (max - length (take max xs))
        taken).1

  paid_lem :
      ((dequeue_eligible_reward_withdrawals env.staking.hex_to_address
          (max - length (take max xs))
          taken).0
        ≡ ok due_rewards)
      × Represents paid.withdrawal_queue (f + length (take max xs)) (drop max xs)
      × Represents paid.reward_withdrawal_queue
          (g + length (take (max - length (take max xs)) ys))
          (drop (max - length (take max xs)) ys)
  unfolding paid
  paid_lem =
      let still : Represents taken.reward_withdrawal_queue g ys =
        subst (λ q. Represents q g ys) (sym took.2) rewards in
      let (got, left, told) =
        dequeue_eligible_reward_withdrawals-Represents env.staking.hex_to_address
          (max - length (take max xs)) g taken ys still in
      (
        got,
        subst (λ q. Represents q (f + length (take max xs)) (drop max xs))
            (sym (ap (λ t. t.withdrawal_queue) told)) took.1,
        left,
      )

  dequeued :
      actual ≡ pointers due ++ pointers due_rewards
      → dequeue_withdrawals env actual s ≡ (ok tt, record s { staking = paid })
  unfolding dequeue_withdrawals dequeue_rewards max_withdrawal_per_block taken paid
  dequeued h =
      let total : length due + length due_rewards ≡ length actual = omega (
        arith,
        ap length h,
        length-pointers due (pointers due_rewards),
        length-map {A = ElWithdrawal} some due_rewards,
      ) in
      let few : ltb (length actual) (length due) ≡ false = ground arith in
      let all : not (length due + length due_rewards == length actual) ≡ false = ground arith in
      bind_ok (on_staking (max_withdrawal_per_block env.staking))
        (λ max.
          on_staking (dequeue_eligible_withdrawals env.staking.hex_to_address max)
          >>= dequeue_rewards env actual max)
        s s max (ap (λ r. (r, s)) max_eq)
      ∙ bind_ok (on_staking (dequeue_eligible_withdrawals env.staking.hex_to_address max))
          (dequeue_rewards env actual max) s (record s { staking = taken }) due
          (ap (λ r. (r, record s { staking = taken })) took.0)
      ∙ bind_ok (fail_if (ltb (length actual) (length due)) [])
          (λ _.
            on_staking
              (dequeue_eligible_reward_withdrawals env.staking.hex_to_address (room_left max due))
            >>= (λ rws. fail_if (not (length due + length rws == length actual)) []))
          (record s { staking = taken }) (record s { staking = taken }) tt
          (ap (λ b. fail_if b [] (record s { staking = taken })) few)
      ∙ bind_ok
          (on_staking
            (dequeue_eligible_reward_withdrawals env.staking.hex_to_address (room_left max due)))
          (λ rws. fail_if (not (length due + length rws == length actual)) [])
          (record s { staking = taken }) (record s { staking = paid }) due_rewards
          (ap
              (λ n.
                on_staking (dequeue_eligible_reward_withdrawals env.staking.hex_to_address n)
                  (record s { staking = taken }))
              room
            ∙ ap (λ r. (r, record s { staking = paid })) paid_lem.0)
      ∙ ap (λ b. fail_if b [] (record s { staking = paid })) all

  -- A payload that passes the comparison of the proposal also passes the counts of its finalization in
  -- the same state, which takes from each queue what the payload has and leaves the rest.
  pub dequeue_withdrawals-compare_withdrawals :
      (compare_withdrawals env actual s).0 ≡ ok tt
      → let (r, t) = dequeue_withdrawals env actual s in
        (r ≡ ok tt)
        × Represents t.staking.withdrawal_queue (f + length (take max xs)) (drop max xs)
        × Represents t.staking.reward_withdrawal_queue
            (g + length (take (max - length (take max xs)) ys))
            (drop (max - length (take max xs)) ys)
  dequeue_withdrawals-compare_withdrawals h =
      let e = dequeued (compare_withdrawals_iff.0 h) in
      (
        ap (λ p. p.0) e,
        subst (λ t. Represents t.staking.withdrawal_queue (f + length (take max xs)) (drop max xs))
            (sym (ap (λ p. p.1) e)) paid_lem.1,
        subst
            (λ t.
              Represents t.staking.reward_withdrawal_queue
                (g + length (take (max - length (take max xs)) ys))
                (drop (max - length (take max xs)) ys))
            (sym (ap (λ p. p.1) e)) paid_lem.2,
      )
