-- ===== src/Staking/Dispatch.antt =====
-- client/x/evmstaking/keeper/keeper.go, `ProcessStakingEvents`: the logs of the previous block, in
-- their order, each to the handler of its event.
pub mod Total
pub mod Survives
pub mod Owned
use story.Base.{ℕ, ◌/◌, ◌^◌, List, [], ◌∷◌, ◌==◌, if◌then◌else◌}
use story.Action.{Outcome, ok, panic, Action, Done, pure, outcome, ◌>>=◌, ◌>>◌}
use story.Evm.{EvmEvent, EthLog, verify, to_eth_log}
use story.Staking.Types.{
  Deposit, CreateValidator, Redelegate, Withdraw, Unjail, UpdateValidatorCommission, SetAddress,
  SetOperator, UnsetOperator,
}
use story.Staking.External.{Env}
use story.Staking.State.{State}
use story.Staking.Handlers.Addresses.{
  process_set_withdrawal_address, process_set_reward_address, process_set_operator,
  process_unset_operator,
}
use story.Staking.Handlers.Deposit.{process_deposit}
use story.Staking.Handlers.Create.{process_create_validator}
use story.Staking.Handlers.Redelegate.{process_redelegate}
use story.Staking.Handlers.Withdraw.{process_withdraw}
use story.Staking.Handlers.Unjail.{process_unjail}
use story.Staking.Handlers.Commission.{process_update_validator_commission}

-- The staking contract (contracts/bindings): the topics of its events, and the parsers of its logs.
pub record Contract : Type 0 where
  pub bytes_to_hash : List ℕ → ℕ
  pub update_validator_commission_id : ℕ
  pub set_withdrawal_address_id : ℕ
  pub set_reward_address_id : ℕ
  pub set_operator_id : ℕ
  pub unset_operator_id : ℕ
  pub create_validator_id : ℕ
  pub deposit_id : ℕ
  pub redelegate_id : ℕ
  pub withdraw_id : ℕ
  pub unjail_id : ℕ
  pub parse_update_validator_commission : EthLog → Outcome UpdateValidatorCommission
  pub parse_set_withdrawal_address : EthLog → Outcome SetAddress
  pub parse_set_reward_address : EthLog → Outcome SetAddress
  pub parse_set_operator : EthLog → Outcome SetOperator
  pub parse_unset_operator : EthLog → Outcome UnsetOperator
  pub parse_create_validator : EthLog → Outcome CreateValidator
  pub parse_deposit : EthLog → Outcome Deposit
  pub parse_redelegate : EthLog → Outcome Redelegate
  pub parse_withdraw : EthLog → Outcome Withdraw
  pub parse_unjail : EthLog → Outcome Unjail

abbrev pub gwei : ℕ
gwei = 10 ^ 9

-- A log that does not parse, and a handler that fails, are logged and skipped.
abbrev pub skip_failure : {S : Type 0} → Action S Done → Action S Done
skip_failure m s = let (r, s') = m s in (elim r [ panic ↦ panic | _ ↦ ok tt ], s')

abbrev parsed : {S E : Type 0} → Outcome E → (E → Action S Done) → Action S Done
parsed r handler = skip_failure (outcome r >>= handler)

-- The first of the cases whose identifier is the topic, as in the switch; none is no error.
abbrev pub switch : {S : Type 0} → ℕ → List (ℕ × Action S Done) → Action S Done
switch t [] = pure tt
switch t ((id, m) ∷ cases) = if t == id then m else switch t cases

module _ {X : Type 0} (env : Env X) (c : Contract) where
  unfoldable pub dispatch : EthLog → ℕ → Action (State X) Done
  dispatch log t = switch t (
      (
        c.update_validator_commission_id,
        parsed (c.parse_update_validator_commission log) (process_update_validator_commission env),
      )
      ∷ (
        c.set_withdrawal_address_id,
        parsed (c.parse_set_withdrawal_address log) (process_set_withdrawal_address env),
      )
      ∷ (
        c.set_reward_address_id,
        parsed (c.parse_set_reward_address log) (process_set_reward_address env),
      )
      ∷ (c.set_operator_id, parsed (c.parse_set_operator log) (process_set_operator env))
      ∷ (c.unset_operator_id, parsed (c.parse_unset_operator log) (process_unset_operator env))
      ∷ (
        c.create_validator_id,
        parsed (c.parse_create_validator log) (λ ev.
            process_create_validator env (record ev { stake_amount = ev.stake_amount / gwei })),
      )
      ∷ (
        c.deposit_id,
        parsed (c.parse_deposit log)
            (λ ev. process_deposit env (record ev { stake_amount = ev.stake_amount / gwei })),
      )
      ∷ (
        c.redelegate_id,
        parsed (c.parse_redelegate log)
            (λ ev. process_redelegate env (record ev { amount = ev.amount / gwei })),
      )
      ∷ (
        c.withdraw_id,
        parsed (c.parse_withdraw log)
            (λ ev. process_withdraw env (record ev { stake_amount = ev.stake_amount / gwei })),
      )
      ∷ (c.unjail_id, parsed (c.parse_unjail log) (process_unjail env))
      ∷ [])

  -- `Topics[0]` of a log without topics is out of range.
  unfoldable pub dispatch_log : EthLog → Action (State X) Done
  dispatch_log log s = elim log.topics [ [] ↦ (panic, s) | t ∷ ts ↦ dispatch log t s ]

  unfoldable pub process_staking_events : List EvmEvent → Action (State X) Done
  process_staking_events [] = pure tt
  process_staking_events (l ∷ logs) =
      let rest = process_staking_events logs in
      do outcome (verify l); log ← outcome (to_eth_log c.bytes_to_hash l); dispatch_log log; rest
