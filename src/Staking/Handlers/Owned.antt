-- ===== src/Staking/Handlers/Owned.antt =====
-- Who can change the addresses that a delegator has set, over the ten handlers of client/x/evmstaking.
use text.Mathlib.Text.{◌==◌ as str_eq}
use story.Base.{◌≡◌, ◌⊎◌, inl, inr, refl, true, Bool-cases, String, some}
use story.Staking.Types
use story.Staking.Types.{SetAddress, SetOperator, UnsetOperator}
use story.Staking.External.{Env}
use story.Staking.State.{State}
use story.Staking.Handlers.{settle, process}
use story.Staking.Handlers.Addresses.{
  process_set_withdrawal_address, process_set_reward_address, process_set_operator,
  process_unset_operator,
}
use story.Staking.Handlers.Deposit.{process_deposit, deposit_body}
use story.Staking.Handlers.Create.{process_create_validator, create_validator_body}
use story.Staking.Handlers.Redelegate.{process_redelegate, redelegate_body, redelegate_after}
use story.Staking.Handlers.Withdraw.{process_withdraw, withdraw_body, withdraw_after}
use story.Staking.Handlers.Unjail.{process_unjail, unjail_body, unjail_as}
use story.Staking.Handlers.Commission.{process_update_validator_commission, commission_body}
use story.Staking.Handlers.Frames.{Request, handle}
use story.Staking.Handlers.Kept.{Kept, Stays, staying, process-Stays}

module _ {X : Type 0} (env : Env X) where
  -- The delegator of the key asks for a new address itself.
  pub data SetsWithdrawal (k : String) : Request → Type 0 where
    by_delegator :
        (ev : SetAddress)
        → str_eq k (env.acc_string ev.delegator) ≡ true
        → SetsWithdrawal k (Request.set_withdrawal_address ev)

  pub data SetsReward (k : String) : Request → Type 0 where
    by_delegator :
        (ev : SetAddress)
        → str_eq k (env.acc_string ev.delegator) ≡ true
        → SetsReward k (Request.set_reward_address ev)

  pub data SetsOperator (k : String) : Request → Type 0 where
    by_delegator :
        (ev : SetOperator)
        → str_eq k (env.acc_string ev.delegator) ≡ true
        → SetsOperator k (Request.set_operator ev)
    back_by_delegator :
        (ev : UnsetOperator)
        → str_eq k (env.acc_string ev.delegator) ≡ true
        → SetsOperator k (Request.unset_operator ev)

  deposit_body-Stays : (ev : Types.Deposit) → Stays (deposit_body env ev)
  unfolding deposit_body
  deposit_body-Stays ev = search staying depth 20

  create_validator_body-Stays : (ev : Types.CreateValidator) → Stays (create_validator_body env ev)
  unfolding create_validator_body
  create_validator_body-Stays ev = search staying depth 20

  redelegate_body-Stays : (ev : Types.Redelegate) → Stays (redelegate_body env ev)
  unfolding redelegate_body redelegate_after
  redelegate_body-Stays ev = search staying depth 20

  withdraw_body-Stays : (ev : Types.Withdraw) → Stays (withdraw_body env ev)
  unfolding withdraw_body withdraw_after
  withdraw_body-Stays ev = search staying depth 20

  unjail_body-Stays : (ev : Types.Unjail) → Stays (unjail_body env ev)
  unfolding unjail_body unjail_as
  unjail_body-Stays ev = search staying depth 20

  commission_body-Stays : (ev : Types.UpdateValidatorCommission) → Stays (commission_body env ev)
  unfolding commission_body
  commission_body-Stays ev = search staying depth 20

  -- What a request leaves of the entries under a key, unless its delegator asks for the change.
  abbrev pub Owned : String → String → String → Request → State X → State X → Type 0
  Owned k a b req s t =
      ((t.delegator_withdraw_address k ≡ some a) ⊎ SetsWithdrawal k req)
      × ((t.delegator_reward_address k ≡ some b) ⊎ SetsReward k req)
      × ((t.delegator_operator_address k ≡ s.delegator_operator_address k) ⊎ SetsOperator k req)

  kept :
      (k a b : String) (req : Request) (s t : State X)
      → s.delegator_withdraw_address k ≡ some a
      → s.delegator_reward_address k ≡ some b
      → Kept s t
      → Owned k a b req s t
  kept k a b req s t h l x =
      (inl (x.withdraw k a h), inl (x.reward k b l), inl (λ i. x.operator i k))

  -- Where a delegator has a withdrawal and a reward address, a request changes one of them only if it
  -- is the delegator's own request to set it, and it changes the delegator's operator only if it is the
  -- delegator's own request to set or unset it.
  pub handle-Owned :
      (req : Request) (k a b : String) (s : State X)
      → s.delegator_withdraw_address k ≡ some a
      → s.delegator_reward_address k ≡ some b
      → Owned k a b req s (handle env req s).1
  unfolding process_update_validator_commission process_set_withdrawal_address
      process_set_reward_address process_set_operator process_unset_operator
      process_create_validator process_deposit process_redelegate process_withdraw process_unjail
      process settle
  handle-Owned (Request.update_validator_commission ev) k a b s h l =
      kept k a b _ s _ h l ((process-Stays _ _ _ (commission_body-Stays ev)).stays s)
  handle-Owned (Request.create_validator ev) k a b s h l =
      kept k a b _ s _ h l ((process-Stays _ _ _ (create_validator_body-Stays ev)).stays s)
  handle-Owned (Request.deposit ev) k a b s h l =
      kept k a b _ s _ h l ((process-Stays _ _ _ (deposit_body-Stays ev)).stays s)
  handle-Owned (Request.redelegate ev) k a b s h l =
      kept k a b _ s _ h l ((process-Stays _ _ _ (redelegate_body-Stays ev)).stays s)
  handle-Owned (Request.withdraw ev) k a b s h l =
      kept k a b _ s _ h l ((process-Stays _ _ _ (withdraw_body-Stays ev)).stays s)
  handle-Owned (Request.unjail ev) k a b s h l =
      kept k a b _ s _ h l ((process-Stays _ _ _ (unjail_body-Stays ev)).stays s)
  handle-Owned (Request.set_withdrawal_address ev) k a b s h l =
      elim (Bool-cases (str_eq k (env.acc_string ev.delegator))) [
        | inl own ↦ (inr (SetsWithdrawal.by_delegator ev own), inl l, inl refl)
        | inr other ↦ (inl (rw other h), inl l, inl refl)
      ]
  handle-Owned (Request.set_reward_address ev) k a b s h l =
      elim (Bool-cases (str_eq k (env.acc_string ev.delegator))) [
        | inl own ↦ (inl h, inr (SetsReward.by_delegator ev own), inl refl)
        | inr other ↦ (inl h, inl (rw other l), inl refl)
      ]
  handle-Owned (Request.set_operator ev) k a b s h l =
      elim (Bool-cases (str_eq k (env.acc_string ev.delegator))) [
        | inl own ↦ (inl h, inl l, inr (SetsOperator.by_delegator ev own))
        | inr other ↦ (inl h, inl l, inl (rw other refl))
      ]
  handle-Owned (Request.unset_operator ev) k a b s h l =
      elim (Bool-cases (str_eq k (env.acc_string ev.delegator))) [
        | inl own ↦ (inl h, inl l, inr (SetsOperator.back_by_delegator ev own))
        | inr other ↦ (inl h, inl l, inl (rw other refl))
      ]
