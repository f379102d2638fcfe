-- ===== src/Staking/Dispatch/Survives.antt =====
-- The logs of a verified block cannot stop it: what fails is skipped.
use story.Base.{ℕ, ◌/◌, ◌≡◌, ◌≢◌, List, [], ◌∷◌, arith}
use story.Action.{Outcome, ok, panic, Done}
use story.Evm.{EvmEvent, EthLog, verify}
use story.Staking.External.{Env}
use story.Staking.State.{State}
use story.Staking.Events.{EventType}
use story.Staking.Handlers.Atomic.{Ends, done, failed}
use story.Staking.Handlers.Frames.{Request, handle, handle-Ends}
use story.Staking.Dispatch.{Contract, dispatch, gwei, dispatch_log, process_staking_events}
use story.Staking.Dispatch.Total.{NoPanic, Total, Total-case, Total-pure, Total-log}

-- The generated parsers return a log that does not fit as an error.
pub record ParsersReturn (c : Contract) : Type 0 where
  pub commission : (log : EthLog) → c.parse_update_validator_commission log ≢ panic
  pub withdrawal_address : (log : EthLog) → c.parse_set_withdrawal_address log ≢ panic
  pub reward_address : (log : EthLog) → c.parse_set_reward_address log ≢ panic
  pub operator : (log : EthLog) → c.parse_set_operator log ≢ panic
  pub no_operator : (log : EthLog) → c.parse_unset_operator log ≢ panic
  pub create_validator : (log : EthLog) → c.parse_create_validator log ≢ panic
  pub deposit : (log : EthLog) → c.parse_deposit log ≢ panic
  pub redelegate : (log : EthLog) → c.parse_redelegate log ≢ panic
  pub withdraw : (log : EthLog) → c.parse_withdraw log ≢ panic
  pub unjail : (log : EthLog) → c.parse_unjail log ≢ panic

-- Every log passes `Verify`.
abbrev pub AllVerified : List EvmEvent → Type 0
AllVerified [] = Unit {0}
AllVerified (l ∷ logs) = (verify l ≡ ok tt) × AllVerified logs

Ends-ne-panic :
    {X : Type 0} {good bad : EventType} {s : State X} {r : Outcome Done} {t : State X}
    → Ends good bad s r t
    → r ≢ panic
Ends-ne-panic (done e x y) h = ground arith
Ends-ne-panic (failed x xs) h = ground arith

module _ {X : Type 0} (env : Env X) (c : Contract) (parsers : ParsersReturn c) where
  handle-NoPanic : (req : Request) → NoPanic (handle env req)
  handle-NoPanic req = record { never = λ s. Ends-ne-panic (handle-Ends env req s) }

  dispatch-Total : (log : EthLog) (t : ℕ) → Total (dispatch env c log t)
  unfolding dispatch
  dispatch-Total log t =
      Total-case _ _ _ _ (parsers.commission log)
        (λ ev. handle-NoPanic (Request.update_validator_commission ev))
        (Total-case _ _ _ _ (parsers.withdrawal_address log)
          (λ ev. handle-NoPanic (Request.set_withdrawal_address ev))
          (Total-case _ _ _ _ (parsers.reward_address log)
            (λ ev. handle-NoPanic (Request.set_reward_address ev))
            (Total-case _ _ _ _ (parsers.operator log)
              (λ ev. handle-NoPanic (Request.set_operator ev))
              (Total-case _ _ _ _ (parsers.no_operator log)
                (λ ev. handle-NoPanic (Request.unset_operator ev))
                (Total-case _ _ _ _ (parsers.create_validator log)
                  (λ ev. handle-NoPanic (
                    Request.create_validator (record ev { stake_amount = ev.stake_amount / gwei })))
                  (Total-case _ _ _ _ (parsers.deposit log)
                    (λ ev.
                      handle-NoPanic
                        (Request.deposit (record ev { stake_amount = ev.stake_amount / gwei })))
                    (Total-case _ _ _ _ (parsers.redelegate log)
                      (λ ev.
                        handle-NoPanic
                          (Request.redelegate (record ev { amount = ev.amount / gwei })))
                      (Total-case _ _ _ _ (parsers.withdraw log)
                        (λ ev.
                          handle-NoPanic (
                            Request.withdraw (record ev { stake_amount = ev.stake_amount / gwei })))
                        (Total-case _ _ _ _ (parsers.unjail log)
                          (λ ev. handle-NoPanic (Request.unjail ev)) (Total-pure))))))))))

  dispatch_log-Total :
      (log : EthLog) (t : ℕ) (ts : List ℕ) → log.topics ≡ t ∷ ts → Total (dispatch_log env c log)
  unfolding dispatch_log
  dispatch_log-Total log t ts e = record {
    total = λ s. rw (e, dispatch_log) ((dispatch-Total log t).total s);
  }

  -- With parsers that return, the staking events of a block whose logs are all verified are processed
  -- without an error or a panic, in every state.
  pub process_staking_events-Total :
      (logs : List EvmEvent) → AllVerified logs → Total (process_staking_events env c logs)
  unfolding process_staking_events
  process_staking_events-Total [] v = Total-pure
  process_staking_events-Total (l ∷ logs) v =
      Total-log c.bytes_to_hash l (dispatch_log env c) (process_staking_events env c logs) v.0
        dispatch_log-Total (process_staking_events-Total logs v.1)
