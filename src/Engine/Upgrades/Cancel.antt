-- ===== src/Engine/Upgrades/Cancel.antt =====
-- A pending upgrade that the contract cancels, in client/x/evmengine/keeper/upgrades.go.
use story.Base.{◌≤◌, ◌≡◌, refl, ap, true, false, none}
use story.Action.{ok, outcome}
use story.Action.Laws.{bind_ok}
use story.Netconf.{is_terence}
use story.Staking.Handlers.{event_of, failure_of}
use story.Staking.Events.{cancel_upgrade_success, cancel_upgrade_failure}
use story.Engine.Types.{Plan, CancelUpgrade}
use story.Engine.State.{Env, State}
use story.Engine.Upgrades.{
  no_plan, emit_event, get_pending_upgrade, is_upgrade_pending, set_pending_upgrade, should_upgrade,
  reset_pending_upgrade, cancel_upgrade, cancel_upgrade_body, cancel_upgrade_attributes,
  process_cancel_upgrade, process, settle,
}
use story.Engine.Upgrades.Pending.{pending_with, set_pending_upgrade_lem}

module _ {X : Type 0} (env : Env X) (ev : CancelUpgrade) (s : State X) where
  -- The state after a cancellation
  abbrev pub canceled : State X
  canceled =
      emit_event (event_of cancel_upgrade_success (cancel_upgrade_attributes env ev))
        (record s { pending_upgrade = none })

  run_body :
      is_terence env.staking.chain_id env.staking.block_height ≡ ok true
      → cancel_upgrade_body env s ≡ (ok tt, record s { pending_upgrade = none })
  unfolding cancel_upgrade_body cancel_upgrade reset_pending_upgrade
  run_body t =
      bind_ok (outcome (is_terence env.staking.chain_id env.staking.block_height))
        (λ terence. cancel_upgrade env terence) s s true (ap (λ r. (r, s)) t)

  -- From the Terence upgrade on, a cancellation succeeds, with or without a pending plan: it emits one
  -- success event and changes nothing else but the plan. No plan is then due, and a valid plan that is
  -- not in the past, and that its encoding gives back, is accepted as the new one.
  pub process_cancel_upgrade_lem :
      (plan : Plan)
      → is_terence env.staking.chain_id env.staking.block_height ≡ ok true
      → env.modules.validate_basic plan ≡ ok tt
      → env.staking.block_height ≤ plan.height
      → env.codecs.unmarshal_plan (env.codecs.marshal_plan plan) ≡ ok plan
      → (process_cancel_upgrade env ev s ≡ (ok tt, canceled))
        × (should_upgrade env canceled ≡ (false, no_plan))
        × (set_pending_upgrade env plan canceled ≡ (ok tt, pending_with env plan canceled))
        × (get_pending_upgrade env (pending_with env plan canceled) ≡ ok plan)
  unfolding process_cancel_upgrade process settle should_upgrade get_pending_upgrade
      is_upgrade_pending
  process_cancel_upgrade_lem plan t fits ahead codec =
      let (set, got, due) = set_pending_upgrade_lem env plan canceled fits ahead codec refl in
      (
        ap
            (λ p.
              settle (event_of cancel_upgrade_success (cancel_upgrade_attributes env ev))
                (failure_of cancel_upgrade_failure (cancel_upgrade_attributes env ev)) s p.0 p.1)
            (run_body t),
        refl,
        set,
        got,
      )
