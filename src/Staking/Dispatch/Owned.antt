-- ===== src/Staking/Dispatch/Owned.antt =====
-- A block of logs and a delegator that asks for nothing in it.
use text.Mathlib.Text.{◌==◌ as str_eq}
use story.Base.{
  ℕ, ◌/◌, ◌≡◌, ◌∙◌, refl, inl, inr, Bool, true, false, arith, ◌==◌, if◌then◌else◌, String, Option,
  some, List, [], ◌∷◌,
}
use story.Action.{Outcome, ok, err, panic, Action, Done, outcome, ◌>>=◌, ◌>>◌}
use story.Evm.{EvmEvent, EthLog, verify, to_eth_log}
use story.Staking.Types.{SetAddress, SetOperator, UnsetOperator}
use story.Staking.External.{Env}
use story.Staking.State.{State}
use story.Staking.Handlers.Frames.{Request, handle}
use story.Staking.Handlers.Owned.{SetsWithdrawal, SetsReward, SetsOperator, handle-Owned}
use story.Staking.Dispatch.{
  Contract, skip_failure, dispatch, gwei, dispatch_log, process_staking_events,
}

-- The entries of a delegator
pub record Holds {X : Type 0} (k a b : String) (o : Option String) (s : State X) : Type 0 where
  pub withdraw : s.delegator_withdraw_address k ≡ some a
  pub reward : s.delegator_reward_address k ≡ some b
  pub operator : s.delegator_operator_address k ≡ o

-- A log does not read as a request of the delegator to set or unset an address.
pub record Quiet {X : Type 0} (env : Env X) (c : Contract) (k : String) (log : EthLog)
    : Type 0 where
  pub withdrawal_address :
      (ev : SetAddress)
      → c.parse_set_withdrawal_address log ≡ ok ev
      → str_eq k (env.acc_string ev.delegator) ≡ false
  pub reward_address :
      (ev : SetAddress)
      → c.parse_set_reward_address log ≡ ok ev
      → str_eq k (env.acc_string ev.delegator) ≡ false
  pub operator :
      (ev : SetOperator)
      → c.parse_set_operator log ≡ ok ev
      → str_eq k (env.acc_string ev.delegator) ≡ false
  pub no_operator :
      (ev : UnsetOperator)
      → c.parse_unset_operator log ≡ ok ev
      → str_eq k (env.acc_string ev.delegator) ≡ false

-- Every log of a block that converts is quiet.
abbrev pub AllQuiet : {X : Type 0} → Env X → Contract → String → List EvmEvent → Type 0
AllQuiet env c k [] = Unit {0}
AllQuiet env c k (l ∷ logs) =
    ((log : EthLog) → to_eth_log c.bytes_to_hash l ≡ ok log → Quiet env c k log)
    × AllQuiet env c k logs

module _ {X : Type 0} (env : Env X) (k : String) where
  -- Whether a request is the delegator's own
  own : Request → Bool
  own (Request.set_withdrawal_address ev) = str_eq k (env.acc_string ev.delegator)
  own (Request.set_reward_address ev) = str_eq k (env.acc_string ev.delegator)
  own (Request.set_operator ev) = str_eq k (env.acc_string ev.delegator)
  own (Request.unset_operator ev) = str_eq k (env.acc_string ev.delegator)
  own _ = false

  own-SetsWithdrawal : (req : Request) → SetsWithdrawal env k req → own req ≡ true
  unfolding own
  own-SetsWithdrawal _ (SetsWithdrawal.by_delegator ev h) = h

  own-SetsReward : (req : Request) → SetsReward env k req → own req ≡ true
  unfolding own
  own-SetsReward _ (SetsReward.by_delegator ev h) = h

  own-SetsOperator : (req : Request) → SetsOperator env k req → own req ≡ true
  unfolding own
  own-SetsOperator _ (SetsOperator.by_delegator ev h) = h
  own-SetsOperator _ (SetsOperator.back_by_delegator ev h) = h

  module _ (a b : String) (o : Option String) where
    record Guards (m : Action (State X) Done) : Type 0 where
      guards : (s : State X) → Holds k a b o s → Holds k a b o (m s).1

    handle-Guards : (req : Request) → own req ≡ false → Guards (handle env req)
    handle-Guards req quiet = record {
      guards = λ s h.
          let (w, r, p) = handle-Owned env req k a b s h.withdraw h.reward in
          record {
            withdraw = elim w [ inl e ↦ e | inr x ↦ absurd (clash (own-SetsWithdrawal req x)) ];
            reward = elim r [ inl e ↦ e | inr x ↦ absurd (clash (own-SetsReward req x)) ];
            operator = elim p [
              | inl e ↦ e ∙ h.operator
              | inr x ↦ absurd (clash (own-SetsOperator req x))
            ];
          };
    }
      where
        clash : own req ≡ true → ⊥
        clash e = ground arith

    Guards-outcome :
        {A : Type 0} (r : Outcome A) (f : A → Action (State X) Done)
        → ((e : A) → r ≡ ok e → Guards (f e))
        → Guards (outcome r >>= f)
    Guards-outcome (ok e) f g = g e refl
    Guards-outcome (err x) f g = record { guards = λ s h. h }
    Guards-outcome panic f g = record { guards = λ s h. h }

    Guards-then : (m n : Action (State X) Done) → Guards m → Guards n → Guards (m >> n)
    Guards-then m n g l = record { guards = λ s h. go (m s).0 (m s).1 (g.guards s h) }
      where
        next : Outcome Done → Action (State X) Done
        next r t = elim r [ ok d ↦ n t | err e ↦ (err e, t) | panic ↦ (panic, t) ]

        go : (r : Outcome Done) (t : State X) → Holds k a b o t → Holds k a b o (next r t).1
        go (ok d) t h = l.guards t h
        go (err e) t h = h
        go panic t h = h

    -- One case of the switch over the topics
    Guards-case :
        {E : Type 0} (is : Bool) (r : Outcome E) (handler : E → Action (State X) Done)
        (others : Action (State X) Done)
        → ((e : E) → r ≡ ok e → Guards (handler e))
        → Guards others
        → Guards (if is then skip_failure (outcome r >>= handler) else others)
    Guards-case true r handler others g l =
        let m = Guards-outcome r handler g in record { guards = λ s h. m.guards s h }
    Guards-case false r handler others g l = l

    module _ (c : Contract) where
      dispatch-Guards : (log : EthLog) (t : ℕ) → Quiet env c k log → Guards (dispatch env c log t)
      unfolding dispatch own
      dispatch-Guards log t quiet =
          Guards-case (t == c.update_validator_commission_id)
            (c.parse_update_validator_commission log) _ _
            (λ ev e. handle-Guards (Request.update_validator_commission ev) refl)
            (Guards-case (t == c.set_withdrawal_address_id) (c.parse_set_withdrawal_address log) _ _
              (λ ev e.
                handle-Guards (Request.set_withdrawal_address ev) (quiet.withdrawal_address ev e))
              (Guards-case (t == c.set_reward_address_id) (c.parse_set_reward_address log) _ _
                (λ ev e. handle-Guards (Request.set_reward_address ev) (quiet.reward_address ev e))
                (Guards-case (t == c.set_operator_id) (c.parse_set_operator log) _ _
                  (λ ev e. handle-Guards (Request.set_operator ev) (quiet.operator ev e))
                  (Guards-case (t == c.unset_operator_id) (c.parse_unset_operator log) _ _
                    (λ ev e. handle-Guards (Request.unset_operator ev) (quiet.no_operator ev e))
                    (Guards-case (t == c.create_validator_id) (c.parse_create_validator log) _ _
                      (λ ev e.
                        handle-Guards
                          (Request.create_validator
                            (record ev { stake_amount = ev.stake_amount / gwei }))
                          refl)
                      (Guards-case (t == c.deposit_id) (c.parse_deposit log) _ _
                        (λ ev e.
                          handle-Guards
                            (Request.deposit (record ev { stake_amount = ev.stake_amount / gwei }))
                            refl)
                        (Guards-case (t == c.redelegate_id) (c.parse_redelegate log) _ _
                          (λ ev e.
                            handle-Guards
                              (Request.redelegate (record ev { amount = ev.amount / gwei })) refl)
                          (Guards-case (t == c.withdraw_id) (c.parse_withdraw log) _ _
                            (λ ev e.
                              handle-Guards
                                (Request.withdraw
                                  (record ev { stake_amount = ev.stake_amount / gwei }))
                                refl)
                            (Guards-case (t == c.unjail_id) (c.parse_unjail log) _ _
                              (λ ev e. handle-Guards (Request.unjail ev) refl)
                              (record { guards = λ s h. h }))))))))))

      dispatch_log-Guards : (log : EthLog) → Quiet env c k log → Guards (dispatch_log env c log)
      unfolding dispatch_log
      dispatch_log-Guards log quiet = record { guards = λ s h. go log.topics s h }
        where
          first : List ℕ → Action (State X) Done
          first topics s = elim topics [ [] ↦ (panic, s) | t ∷ ts ↦ dispatch env c log t s ]

          go : (ts : List ℕ) (s : State X) → Holds k a b o s → Holds k a b o (first ts s).1
          go [] s h = h
          go (t ∷ ts) s h = (dispatch-Guards log t quiet).guards s h

      events-Guards :
          (logs : List EvmEvent)
          → AllQuiet env c k logs
          → Guards (process_staking_events env c logs)
      unfolding process_staking_events
      events-Guards [] quiet = record { guards = λ s h. h }
      events-Guards (l ∷ logs) (first, others) = Guards-outcome (verify l) _ (λ d e.
          Guards-outcome (to_eth_log c.bytes_to_hash l) _ (λ log converted.
            Guards-then (dispatch_log env c log) (process_staking_events env c logs)
              (dispatch_log-Guards log (first log converted)) (events-Guards logs others)))

-- Where a delegator has a withdrawal and a reward address, and no log of a block reads as its own request
-- to set or unset an address, the block leaves it both addresses and its operator, whatever the other
-- logs do and however the block ends.
pub process_staking_events-Holds :
    {X : Type 0} (env : Env X) (c : Contract) (logs : List EvmEvent) (k a b : String)
    (o : Option String) (s : State X)
    → AllQuiet env c k logs
    → Holds k a b o s
    → Holds k a b o (process_staking_events env c logs s).1
process_staking_events-Holds env c logs k a b o s quiet =
    (events-Guards env k a b o c logs quiet).guards s
