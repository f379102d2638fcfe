-- ===== src/Staking/Withdrawals/Trace.antt =====
-- The two queues of withdrawals over any number of blocks: whatever is queued is paid once, in order.
use story.Base.{
  ℕ, zero, suc, ◌+◌, ◌≤◌, ◌<◌, ◌≡◌, refl, sym, ap, subst, ◌∙◌, String, List, [], ◌∷◌, ◌++◌, take,
  drop, length, length-append, length-take, length-drop, append_assoc, append-nil, arith, u64_mod,
}
use native.Mathlib.Numerals.{unary_clauses}
use story.Action.{ok}
use story.Queue.{Queue}
use story.Queue.Represents.{Represents, Represents-at}
use story.Queue.Laws.{enqueue-Represents}
use story.Staking.Types.{Withdrawal, ElWithdrawal}
use story.Staking.State.{State}
use story.Staking.Withdrawals.{
  add_withdrawal_to_queue, add_reward_withdrawal_to_queue, dequeue_eligible_withdrawals,
  dequeue_eligible_reward_withdrawals,
}
use story.Staking.Withdrawals.Numbered.{
  numbered, dequeue_eligible_withdrawals-Represents, dequeue_eligible_reward_withdrawals-Represents,
}

-- A sequence of the operations on the queues, among others that leave the queues alone: what was
-- added to each and what was taken from it, oldest first.
pub data Trace {X : Type 0} (hex_to_address : String → ℕ)
    : State X
      → List Withdrawal
      → List ElWithdrawal
      → List Withdrawal
      → List ElWithdrawal
      → State X
      → Type 0 where
  done : (s : State X) → Trace hex_to_address s [] [] [] [] s
  other :
      (s t u : State X) (ws rs : List Withdrawal) (es ds : List ElWithdrawal)
      → t.withdrawal_queue ≡ s.withdrawal_queue
      → t.reward_withdrawal_queue ≡ s.reward_withdrawal_queue
      → Trace hex_to_address t ws es rs ds u
      → Trace hex_to_address s ws es rs ds u
  add_withdrawal :
      (s u : State X) (w : Withdrawal) (ws rs : List Withdrawal) (es ds : List ElWithdrawal)
      → Trace hex_to_address (add_withdrawal_to_queue w s).1 ws es rs ds u
      → Trace hex_to_address s (w ∷ ws) es rs ds u
  add_reward :
      (s u : State X) (w : Withdrawal) (ws rs : List Withdrawal) (es ds : List ElWithdrawal)
      → Trace hex_to_address (add_reward_withdrawal_to_queue w s).1 ws es rs ds u
      → Trace hex_to_address s ws es (w ∷ rs) ds u
  take_withdrawals :
      (s t u : State X) (max : ℕ) (ws rs : List Withdrawal) (taken es ds : List ElWithdrawal)
      → dequeue_eligible_withdrawals hex_to_address max s ≡ (ok taken, t)
      → Trace hex_to_address t ws es rs ds u
      → Trace hex_to_address s ws (taken ++ es) rs ds u
  take_rewards :
      (s t u : State X) (max : ℕ) (ws rs : List Withdrawal) (taken es ds : List ElWithdrawal)
      → dequeue_eligible_reward_withdrawals hex_to_address max s ≡ (ok taken, t)
      → Trace hex_to_address t ws es rs ds u
      → Trace hex_to_address s ws es rs (taken ++ ds) u

module _ {A : Type 0} where
  take_of_append :
      (max n : ℕ) (xs ys : List A)
      → take (length (take max xs) + n) (xs ++ ys) ≡ take max xs ++ take n (drop max xs ++ ys)
  take_of_append zero n xs ys = ap (λ k. take k (xs ++ ys)) (let e : 0 + n ≡ n = omega arith in e)
  take_of_append (suc max) n [] ys = ap (λ k. take k ys) (let e : 0 + n ≡ n = omega arith in e)
  take_of_append (suc max) n (x ∷ xs) ys =
      let e : suc (length (take max xs)) + n ≡ suc (length (take max xs) + n) = omega arith in
      rw e (ap (◌∷◌ x) (take_of_append max n xs ys))

  drop_of_append :
      (max n : ℕ) (xs ys : List A)
      → drop (length (take max xs) + n) (xs ++ ys) ≡ drop n (drop max xs ++ ys)
  drop_of_append zero n xs ys = ap (λ k. drop k (xs ++ ys)) (let e : 0 + n ≡ n = omega arith in e)
  drop_of_append (suc max) n [] ys = ap (λ k. drop k ys) (let e : 0 + n ≡ n = omega arith in e)
  drop_of_append (suc max) n (x ∷ xs) ys =
      let e : suc (length (take max xs)) + n ≡ suc (length (take max xs) + n) = omega arith in
      rw e (drop_of_append max n xs ys)

module _ (hex_to_address : String → ℕ) where
  numbered-append :
      (f : ℕ) (a b : List Withdrawal)
      → numbered hex_to_address f (a ++ b)
        ≡ numbered hex_to_address f a ++ numbered hex_to_address (f + length a) b
  numbered-append f [] b = simp unary_clauses refl
  numbered-append f (w ∷ a) b =
      let e : suc f + length a ≡ f + suc (length a) = omega arith in
      rw (numbered-append (suc f) a b, e)

  -- A queue that held `xs` from number `f` on, was given `ins` and paid out `outs`: it paid the first
  -- of `xs ++ ins`, in order and numbered from `f` on, and holds the others.
  abbrev pub Fed :
      ℕ → List Withdrawal → List Withdrawal → List ElWithdrawal → Queue Withdrawal → Type 0
  Fed f xs ins outs q =
      (n : ℕ) × (n ≤ length (xs ++ ins))
      × (outs ≡ numbered hex_to_address f (take n (xs ++ ins)))
      × Represents q (f + n) (drop n (xs ++ ins))

  Fed-refl :
      (f : ℕ) (xs : List Withdrawal) (q : Queue Withdrawal) → Represents q f xs → Fed f xs [] [] q
  Fed-refl f xs q r = (0, omega arith, refl, rw (append-nil xs) (Represents-at (omega arith) r))

  Fed-add :
      (f : ℕ) (xs ins : List Withdrawal) (w : Withdrawal) (outs : List ElWithdrawal)
      (q : Queue Withdrawal)
      → Fed f (xs ++ w ∷ []) ins outs q
      → Fed f xs (w ∷ ins) outs q
  Fed-add f xs ins w outs q fed =
      let e : (xs ++ w ∷ []) ++ ins ≡ xs ++ w ∷ ins = append_assoc xs (w ∷ []) ins in
      subst
        (λ ys.
          (n : ℕ) × (n ≤ length ys)
          × (outs ≡ numbered hex_to_address f (take n ys))
          × Represents q (f + n) (drop n ys))
        e fed

  Fed-dequeue :
      (f max : ℕ) (xs ins : List Withdrawal) (outs : List ElWithdrawal) (q : Queue Withdrawal)
      → Fed (f + length (take max xs)) (drop max xs) ins outs q
      → Fed f xs ins (numbered hex_to_address f (take max xs) ++ outs) q
  Fed-dequeue f max xs ins outs q (n, bound, paid, left) =
      let k = length (take max xs) in
      (
        k + n,
        omega (
          arith,
          length-take max xs,
          length-drop max xs,
          length-append xs ins,
          length-append (drop max xs) ins,
        ),
        ap (◌++◌ (numbered hex_to_address f (take max xs))) paid
            ∙ sym (numbered-append f (take max xs) (take n (drop max xs ++ ins)))
            ∙ ap (numbered hex_to_address f) (sym (take_of_append max n xs ins)),
        rw (drop_of_append max n xs ins) (Represents-at (omega arith) left),
      )

  module _ {X : Type 0} where
    -- What taking from a queue leaves to show of the entries and of the state after it.
    paid_from :
        (f max : ℕ) (s t : State X) (xs : List Withdrawal) (taken : List ElWithdrawal)
        → dequeue_eligible_withdrawals hex_to_address max s ≡ (ok taken, t)
        → Represents s.withdrawal_queue f xs
        → (taken ≡ numbered hex_to_address f (take max xs))
          × Represents t.withdrawal_queue (f + length (take max xs)) (drop max xs)
          × (t.reward_withdrawal_queue ≡ s.reward_withdrawal_queue)
    paid_from f max s t xs taken e r =
        let (got, left, told) =
          dequeue_eligible_withdrawals-Represents hex_to_address max f s xs r in
        let after = ap (λ p. p.1) e in
        (
          cc,
          subst (λ v. Represents v.withdrawal_queue (f + length (take max xs)) (drop max xs)) after
              left,
          ap (λ v. v.reward_withdrawal_queue) (sym after ∙ told),
        )

    paid_from_rewards :
        (g max : ℕ) (s t : State X) (ys : List Withdrawal) (taken : List ElWithdrawal)
        → dequeue_eligible_reward_withdrawals hex_to_address max s ≡ (ok taken, t)
        → Represents s.reward_withdrawal_queue g ys
        → (taken ≡ numbered hex_to_address g (take max ys))
          × Represents t.reward_withdrawal_queue (g + length (take max ys)) (drop max ys)
          × (t.withdrawal_queue ≡ s.withdrawal_queue)
    paid_from_rewards g max s t ys taken e r =
        let (got, left, told) =
          dequeue_eligible_reward_withdrawals-Represents hex_to_address max g s ys r in
        let after = ap (λ p. p.1) e in
        (
          cc,
          subst (λ v. Represents v.reward_withdrawal_queue (g + length (take max ys)) (drop max ys))
              after left,
          ap (λ v. v.withdrawal_queue) (sym after ∙ told),
        )

    -- Over any sequence of the queues' operations, and of others that leave the queues as they are,
    -- each queue is first in, first out: what it paid is the first of what it held and was given, each
    -- once, in order and numbered without a gap, and it holds the rest. The counter of each queue must
    -- not reach its last value with all that it is given.
    pub Trace-Fed :
        (s u : State X) (ws rs : List Withdrawal) (es ds : List ElWithdrawal) (f g : ℕ)
        (xs ys : List Withdrawal)
        → Trace hex_to_address s ws es rs ds u
        → Represents s.withdrawal_queue f xs
        → Represents s.reward_withdrawal_queue g ys
        → f + length xs + length ws < u64_mod
        → g + length ys + length rs < u64_mod
        → Fed f xs ws es u.withdrawal_queue × Fed g ys rs ds u.reward_withdrawal_queue
    unfolding add_withdrawal_to_queue add_reward_withdrawal_to_queue
    Trace-Fed s u ws rs es ds f g xs ys (done _) q r a b =
        (Fed-refl f xs s.withdrawal_queue q, Fed-refl g ys s.reward_withdrawal_queue r)
    Trace-Fed s u ws rs es ds f g xs ys (other _ t _ _ _ _ _ e h rest) q r a b =
        Trace-Fed t u ws rs es ds f g xs ys rest (subst (λ p. Represents p f xs) (sym e) q)
          (subst (λ p. Represents p g ys) (sym h) r) a b
    Trace-Fed s u ws rs es ds f g xs ys (add_withdrawal _ _ w ws' _ _ _ rest) q r a b =
        let grown = (enqueue-Represents s.withdrawal_queue f xs w q (omega arith)).1 in
        let (fed, same) =
          Trace-Fed (add_withdrawal_to_queue w s).1 u ws' rs es ds f g (xs ++ w ∷ []) ys rest grown
            r (omega (arith, length-append xs (w ∷ []))) b in
        (Fed-add f xs ws' w es u.withdrawal_queue fed, same)
    Trace-Fed s u ws rs es ds f g xs ys (add_reward _ _ w _ rs' _ _ rest) q r a b =
        let grown = (enqueue-Represents s.reward_withdrawal_queue g ys w r (omega arith)).1 in
        let (same, fed) =
          Trace-Fed (add_reward_withdrawal_to_queue w s).1 u ws rs' es ds f g xs (ys ++ w ∷ []) rest
            q grown a (omega (arith, length-append ys (w ∷ []))) in
        (same, Fed-add g ys rs' w ds u.reward_withdrawal_queue fed)
    Trace-Fed s u ws rs es ds f g xs ys (take_withdrawals _ t _ max _ _ taken es' _ e rest) q r a
          b =
        let (outs, left, same) = paid_from f max s t xs taken e q in
        let (fed, other_fed) =
          Trace-Fed t u ws rs es' ds (f + length (take max xs)) g (drop max xs) ys rest left
            (subst (λ p. Represents p g ys) (sym same) r)
            (omega (arith, length-take max xs, length-drop max xs)) b in
        (rw outs (Fed-dequeue f max xs ws es' u.withdrawal_queue fed), other_fed)
    Trace-Fed s u ws rs es ds f g xs ys (take_rewards _ t _ max _ _ taken _ ds' e rest) q r a b =
        let (outs, left, same) = paid_from_rewards g max s t ys taken e r in
        let (other_fed, fed) =
          Trace-Fed t u ws rs es ds' f (g + length (take max ys)) xs (drop max ys) rest
            (subst (λ p. Represents p f xs) (sym same) q) left a
            (omega (arith, length-take max ys, length-drop max ys)) in
        (other_fed, rw outs (Fed-dequeue g max ys rs ds' u.reward_withdrawal_queue fed))
