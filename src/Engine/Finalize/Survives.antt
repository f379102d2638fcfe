-- ===== src/Engine/Finalize/Survives.antt =====
-- The events of the parent payload cannot stop a block.
use story.Base.{ℕ, ◌≡◌, ◌≢◌, ◌∙◌, some, List, [], ◌∷◌, arith}
use story.Errors.{Error}
use story.Action.{Outcome, ok, err, panic, Action, Done}
use story.Evm.{EvmEvent, EthLog}
use story.Staking.Events.{Event}
use story.Staking.Dispatch.{process_staking_events}
use story.Staking.Dispatch.Total.{NoPanic, Total, Total-case, Total-pure, Total-log}
use story.Staking.Dispatch.Survives.{ParsersReturn, AllVerified, process_staking_events-Total}
use story.Engine.Types.{MsgExecutionPayload, SoftwareUpgrade, CancelUpgrade, UbiPercentageSet}
use story.Engine.State.{Env, State, Contracts, on_staking}
use story.Engine.Upgrades.{
  settle, process, process_software_upgrade, process_cancel_upgrade, upgrade_log,
  process_upgrade_events,
}
use story.Engine.Ubi.{process_ubi_percentage_set, ubi_log, process_ubi_events}
use story.Engine.Retry.{once, ◌>>◌}
use story.Engine.Retry.Ends.{bind_ok}
use story.Engine.Finalize.{deliver_events}

-- All generated parsers return a log that does not fit as an error.
pub record AllParsersReturn (c : Contracts) : Type 0 where
  pub staking : ParsersReturn c.ip_token_staking
  pub software_upgrade : (log : EthLog) → c.parse_software_upgrade log ≢ panic
  pub cancel_upgrade : (log : EthLog) → c.parse_cancel_upgrade log ≢ panic
  pub ubi_percentage_set : (log : EthLog) → c.parse_ubi_percentage_set log ≢ panic

settled :
    {X : Type 0} (success : Event) (failure : Error → Event) (s t : State X) (r : Outcome Done)
    → (settle success failure s r t).0 ≢ panic
unfolding settle
settled success failure s t (ok _) h = ground arith
settled success failure s t (err e) h = ground arith
settled success failure s t panic h = ground arith

process-NoPanic :
    {X : Type 0} (success : Event) (failure : Error → Event) (body : Action (State X) Done)
    → NoPanic (process success failure body)
unfolding process
process-NoPanic success failure body = record {
  never = λ s. settled success failure s (body s).1 (body s).0;
}

module _ {X : Type 0} (env : Env X) (parsers : AllParsersReturn env.contracts) where
  process_software_upgrade-NoPanic :
      (ev : SoftwareUpgrade) → NoPanic (process_software_upgrade env ev)
  unfolding process_software_upgrade
  process_software_upgrade-NoPanic ev = process-NoPanic _ _ _

  process_cancel_upgrade-NoPanic : (ev : CancelUpgrade) → NoPanic (process_cancel_upgrade env ev)
  unfolding process_cancel_upgrade
  process_cancel_upgrade-NoPanic ev = process-NoPanic _ _ _

  process_ubi-NoPanic : (ev : UbiPercentageSet) → NoPanic (process_ubi_percentage_set env ev)
  unfolding process_ubi_percentage_set
  process_ubi-NoPanic ev = process-NoPanic _ _ _

  upgrade_log-Total :
      (log : EthLog) (t : ℕ) (ts : List ℕ) → log.topics ≡ t ∷ ts → Total (upgrade_log env log)
  unfolding upgrade_log
  upgrade_log-Total log t ts e = record {
    total = λ s.
        rw (e, upgrade_log)
          ((Total-case _ _ _ _ (parsers.software_upgrade log) process_software_upgrade-NoPanic (
              Total-case _ _ _ _ (parsers.cancel_upgrade log) process_cancel_upgrade-NoPanic
                Total-pure)).total
            s);
  }

  ubi_log-Total :
      (log : EthLog) (t : ℕ) (ts : List ℕ) → log.topics ≡ t ∷ ts → Total (ubi_log env log)
  unfolding ubi_log
  ubi_log-Total log t ts e = record {
    total = λ s.
        rw (e, ubi_log)
          ((Total-case _ _ _ _ (parsers.ubi_percentage_set log) process_ubi-NoPanic
              Total-pure).total
            s);
  }

  upgrade_events-Total :
      (logs : List EvmEvent) → AllVerified logs → Total (process_upgrade_events env logs)
  unfolding process_upgrade_events
  upgrade_events-Total [] v = Total-pure
  upgrade_events-Total (l ∷ logs) v =
      Total-log _ l (upgrade_log env) (process_upgrade_events env logs) v.0 upgrade_log-Total
        (upgrade_events-Total logs v.1)

  ubi_events-Total : (logs : List EvmEvent) → AllVerified logs → Total (process_ubi_events env logs)
  unfolding process_ubi_events
  ubi_events-Total [] v = Total-pure
  ubi_events-Total (l ∷ logs) v =
      Total-log _ l (ubi_log env) (process_ubi_events env logs) v.0 ubi_log-Total
        (ubi_events-Total logs v.1)

  -- With parsers that return, and verified logs, the events of a payload are delivered to the staking
  -- module, to the upgrades and to the basic income without an error or a panic, in every state.
  pub deliver_events-succeeds :
      (msg : MsgExecutionPayload) (s : State X)
      → AllVerified msg.prev_payload_events
      → (t : State X) × (deliver_events env msg s ≡ some (ok tt, t))
  unfolding deliver_events
  deliver_events-succeeds msg s v =
      let logs = msg.prev_payload_events in
      let stake : Action (State X) Done =
        on_staking (process_staking_events env.staking env.contracts.ip_token_staking logs) in
      let s₁ = (stake s).1 in
      let s₂ = (process_upgrade_events env logs s₁).1 in
      let s₃ = (process_ubi_events env logs s₂).1 in
      let staked =
        (process_staking_events-Total env.staking env.contracts.ip_token_staking parsers.staking
            logs v).total
          s.staking in
      let upgraded = (upgrade_events-Total logs v).total s₁ in
      let paid = (ubi_events-Total logs v).total s₂ in
      (
        s₃,
        bind_ok (once stake)
              (λ _. once (process_upgrade_events env logs) >> once (process_ubi_events env logs)) s
              s₁ tt (λ i. some (staked i, s₁))
            ∙ bind_ok (once (process_upgrade_events env logs))
                (λ _. once (process_ubi_events env logs)) s₁ s₂ tt (λ i. some (upgraded i, s₂))
            ∙ (λ i. some (paid i, s₃)),
      )
