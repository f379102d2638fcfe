-- ===== src/Staking/Unstake/Owed.antt =====
-- client/x/evmstaking/keeper/withdraw.go: what the matured unbondings of a block leave in the queues.
use story.Base.{
  ℕ, ◌+◌, ◌<◌, ◌≤◌, ◌≡◌, sym, ap, subst, ◌∙◌, String, List, [], ◌∷◌, ◌++◌, append-nil, append_assoc,
  length, length-append, u64_mod, arith, suc,
}
use story.Action.{ok}
use story.Action.Laws.{then_inv}
use story.Queue.{value_or_zero}
use story.Queue.Represents.{Represents}
use story.Queue.Laws.{enqueue-Represents}
use story.Staking.Types.{Withdrawal, new_withdrawal, unstake}
use story.Staking.External.{Env, UnbondedEntry}
use story.Staking.State.{State}
use story.Staking.Withdrawals.{add_withdrawal_to_queue}
use story.Staking.Sweep.Adds.{Adds, Adds-more, Adds-bind, adding, queued}
use story.Staking.Unstake.{
  burn_residue, withdraw_residue, withdraw_entry, residue_entry, for_entries,
  process_unstake_withdrawals,
}
use story.Staking.Unstake.Entries.{Owed, withdraw_entry_inv}

module _ {X : Type 0} (env : Env X) where
  -- The first loop appends what the entries are owed, and leaves the rewards alone.
  first_loop :
      (es : List UnbondedEntry) (s t : State X) (f : ℕ) (ws : List Withdrawal)
      → Represents s.withdrawal_queue f ws
      → f + length ws + length es < u64_mod
      → for_entries env (withdraw_entry env) es s ≡ (ok tt, t)
      → (new : List Withdrawal) × Owed env s.delegator_withdraw_address es new
        × Represents t.withdrawal_queue f (ws ++ new)
        × (t.reward_withdrawal_queue ≡ s.reward_withdrawal_queue)
  unfolding for_entries add_withdrawal_to_queue
  first_loop [] s t f ws r room h = (
    [],
    Owed.nothing,
    subst (λ l. Represents t.withdrawal_queue f l) (sym (append-nil ws))
        (subst (λ u. Represents u.withdrawal_queue f ws) (λ i. (h i).1) r),
    λ i. (sym h i).1.reward_withdrawal_queue,
  )
  first_loop (e ∷ es) s t f ws r room h =
      let (u, step, rest) =
        then_inv (withdraw_entry env e) (for_entries env (withdraw_entry env) es) s t tt h in
      let (addr, amount, v, x, is_addr, is_amount, is_val, added) =
        withdraw_entry_inv env e s u step in
      let w = new_withdrawal env.block_height addr amount unstake (env.hex_encode v) in
      let r₁ : Represents u.withdrawal_queue f (ws ++ w ∷ []) =
        subst (λ u. Represents u.withdrawal_queue f (ws ++ w ∷ [])) (λ i. (added i).1)
          (enqueue-Represents s.withdrawal_queue f ws w r (omega arith)).1 in
      let kept : u.delegator_withdraw_address ≡ s.delegator_withdraw_address =
        λ i. (sym added i).1.delegator_withdraw_address in
      let (new, owed, r₂, rewards) =
        first_loop es u t f (ws ++ w ∷ []) r₁ (omega (arith, length-append ws (w ∷ []))) rest in
      (
        w ∷ new,
        Owed.entry e es new addr amount v is_addr is_amount is_val
            (subst (λ m. Owed env m es new) kept owed),
        subst (λ l. Represents t.withdrawal_queue f l) (append_assoc ws (w ∷ []) new) r₂,
        rewards ∙ λ i. (sym added i).1.reward_withdrawal_queue,
      )

  withdraw_residue-Adds :
      (e : UnbondedEntry) (del : ℕ) (v : String) → Adds 1 (withdraw_residue env e del v)
  unfolding withdraw_residue burn_residue
  withdraw_residue-Adds e del v = search adding depth 60

  residue_entry-Adds : (e : UnbondedEntry) → Adds 1 (residue_entry env e)
  unfolding residue_entry
  residue_entry-Adds e = search (adding, withdraw_residue-Adds) depth 60

  second_loop :
      (es : List UnbondedEntry) → Adds (length es) (for_entries env (residue_entry env) es)
  unfolding for_entries
  second_loop [] = search adding
  second_loop (e ∷ es) =
      Adds-more (1 + length es) (suc (length es)) _ (omega arith)
        (Adds-bind 1 (length es) _ _ (residue_entry-Adds e) (λ _. second_loop es))

  -- Where the queue of withdrawals has room, a call that succeeds appends to it exactly one withdrawal
  -- for each entry, in order: of the entry's amount, to the address that the delegator has set. It
  -- queues at most one reward for each entry.
  pub process_unstake_withdrawals-Owed :
      (es : List UnbondedEntry) (s t : State X) (f : ℕ) (ws : List Withdrawal)
      → Represents s.withdrawal_queue f ws
      → f + length ws + length es < u64_mod
      → process_unstake_withdrawals env es s ≡ (ok tt, t)
      → (new : List Withdrawal) × Owed env s.delegator_withdraw_address es new
        × Represents t.withdrawal_queue f (ws ++ new)
        × (queued t ≤ queued s + length es)
  unfolding process_unstake_withdrawals
  process_unstake_withdrawals-Owed es s t f ws r room h =
      let (u, first, rest) =
        then_inv (for_entries env (withdraw_entry env) es) (for_entries env (residue_entry env) es)
          s t tt h in
      let (new, owed, r₁, rewards) = first_loop es s u f ws r room first in
      let adds = second_loop es in
      (
        new,
        owed,
        subst (λ q. Represents q f (ws ++ new))
            (sym (adds.same u) ∙ λ i. (rest i).1.withdrawal_queue) r₁,
        omega
            (arith, adds.adds u, ap (λ q. value_or_zero q.rear) rewards, ap (λ p. queued p.1) rest),
      )
