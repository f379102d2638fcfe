-- ===== src/Staking/Sweep.antt =====
-- client/x/evmstaking/keeper/withdraw.go, `ProcessRewardWithdrawals`: the circular sweep of the
-- validators' delegations, which goes on in the next block where this one stopped.
pub mod Adds
pub mod After
pub mod Rounds
pub mod Bounds
use story.Base.{
  ℕ, zero, suc, ◌+◌, ◌-◌, ◌%◌, Bool, true, false, Option, none, some, List, [], ◌∷◌, leb, ltb,
  length, take, drop, get_elem?, if◌then◌else◌, u32_mod, u64_mod,
}
use story.Action.{Outcome, ok, err, panic, Action, Done, pure, outcome, ◌>>=◌, ◌>>◌}
use story.Staking.Types.{SweepIndex}
use story.Staking.External.{Env, Validator, Delegation}
use story.Staking.State.{State, query}
use story.Staking.Params.{
  get_validator_sweep_index, set_validator_sweep_index, max_sweep_per_block,
  min_partial_withdrawal_amount,
}
use story.Staking.Rewards.{process_eligible_reward_withdrawal}

-- The variables of the outer loop.
pub record Cursor : Type 0 where
  pub val_index : ℕ
  pub val_del_index : ℕ
  pub swept : ℕ

-- An index out of a slice's range panics.
abbrev pub at_index : {A : Type 0} → List A → ℕ → Outcome A
at_index xs i = elim (get_elem? xs i) [ none ↦ panic | some a ↦ ok a ]

-- The next validator, from its first delegation: `n` is the size of the validator set.
abbrev pub next_validator : ℕ → Cursor → Cursor
next_validator n c = record c { val_index = ((c.val_index + 1) % u64_mod) % n; val_del_index = 0 }

-- A stored index that is past the validator set starts again.
abbrev pub start : ℕ → SweepIndex → Cursor
start n i =
    if leb n i.next_val_index
    then record { val_index = 0; val_del_index = 0; swept = 0 }
    else record { val_index = i.next_val_index; val_del_index = i.next_val_del_index; swept = 0 }

module _ {X : Type 0} (env : Env X) (min_amount : ℕ) where
  -- The inner loop, which counts the delegations on.
  unfoldable pub process_delegations : Validator → List Delegation → ℕ → Action (State X) ℕ
  process_delegations validator [] i = pure i
  process_delegations validator (d ∷ ds) i =
      let rest = process_delegations validator ds ((i + 1) % u64_mod) in
      process_eligible_reward_withdrawal env min_amount validator d >> rest

  -- What is left of a validator's delegations, with the `break` as the first component.
  unfoldable pub sweep_delegations :
      ℕ → ℕ → Validator → List Delegation → Cursor → Action (State X) (Bool × Cursor)
  sweep_delegations bound n validator next c =
      let remaining = (bound + u32_mod - c.swept) % u32_mod in
      if ltb remaining (length next % u32_mod)
      then (do
        i ← process_delegations validator (take remaining next) c.val_del_index
        pure (true, record c { val_del_index = i }))
      else (do
        i ← process_delegations validator next c.val_del_index
        let c' : Cursor = next_validator n (record c { val_del_index = i })
        pure (false, record c' { swept = (c'.swept + length next % u32_mod) % u32_mod }))

  -- A round of the outer loop from each of its reads on.
  unfoldable pub visit_delegations :
      ℕ → ℕ → Validator → Cursor → List Delegation → Action (State X) (Bool × Cursor)
  visit_delegations bound n validator c delegations =
      if leb (length delegations) c.val_del_index
      then pure (false, next_validator n c)
      else sweep_delegations bound n validator (drop c.val_del_index delegations) c

  unfoldable pub visit_address : ℕ → ℕ → Validator → Cursor → ℕ → Action (State X) (Bool × Cursor)
  visit_address bound n validator c val_addr =
      query (env.get_validator_delegations val_addr) >>= visit_delegations bound n validator c

  unfoldable pub visit : ℕ → ℕ → Cursor → Validator → Action (State X) (Bool × Cursor)
  visit bound n c validator =
      if validator.jailed
      then pure (false, next_validator n c)
      else outcome (env.validator_codec validator.operator) >>= visit_address bound n validator c

  unfoldable pub sweep_validator : ℕ → List Validator → Cursor → Action (State X) (Bool × Cursor)
  sweep_validator bound vals c = outcome (at_index vals c.val_index) >>= visit bound (length vals) c

  -- The outer loop with `k` rounds left
  unfoldable pub sweep_loop : ℕ → List Validator → ℕ → Cursor → Action (State X) Cursor
  sweep_loop bound vals zero c = pure c
  sweep_loop bound vals (suc k) c =
      let rest = sweep_loop bound vals k in
      sweep_validator bound vals c >>= λ p. if p.0 then pure p.1 else rest p.1

-- The end of the sweep stores where it stopped.
unfoldable pub sweep_from :
    {X : Type 0} → Env X → List Validator → ℕ → ℕ → SweepIndex → Action (State X) Done
sweep_from env vals bound min_amount index =
    sweep_loop env min_amount bound vals (length vals) (start (length vals) index) >>= λ c.
    set_validator_sweep_index env
      (record { next_val_index = c.val_index; next_val_del_index = c.val_del_index })

unfoldable pub process_reward_withdrawals : {X : Type 0} → Env X → Action (State X) Done
process_reward_withdrawals env = do
  index ← get_validator_sweep_index env
  vals ← query env.get_all_validators
  bound ← max_sweep_per_block env
  min_amount ← min_partial_withdrawal_amount env
  sweep_from env vals bound min_amount index
