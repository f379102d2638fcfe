-- ===== src/Engine/Upgrades.antt =====
-- client/x/evmengine/keeper/upgrades.go: upgrades that the contract schedules and cancels. From the
-- Terence upgrade on a plan is pending in the module's own store until its height.
pub mod Pending
pub mod Cancel
use story.Base.{
  ℕ, Bool, true, false, String, Option, none, some, List, [], ◌∷◌, leb, ltb, ◌==◌, if◌then◌else◌,
}
use story.ErrCode
use story.Errors.{
  Error, is, cause, invalid_request, upgrade_pending, upgrade_not_found, wrap_err_with_code,
}
use story.Action.{
  Outcome, ok, err, panic, Action, Done, pure, fail, fail_if, gets, modify, map_err, outcome, ◌>>=◌,
  ◌>>◌,
}
use story.Netconf.{is_terence}
use story.Evm.{EvmEvent, EthLog, verify, to_eth_log}
use story.Staking.Events.{
  Event, Attribute, num, bytes, text, block_height, tx_hash, upgrade_name, upgrade_height,
  upgrade_info, upgrade_success, upgrade_failure, cancel_upgrade_success, cancel_upgrade_failure,
}
use story.Staking.Handlers.{event_of, failure_of, coded}
use story.Staking.Dispatch.{skip_failure, switch}
use story.Staking.State.{emit}
use story.Engine.Types.{Plan, SoftwareUpgrade, CancelUpgrade}
use story.Engine.State.{Env, State, call}

-- The deferred function of a handler, as in x/evmstaking.
abbrev pub emit_event : {X : Type 0} → Event → State X → State X
emit_event e s = record s { staking = emit e s.staking }

unfoldable pub settle :
    {X : Type 0}
    → Event
    → (Error → Event)
    → State X
    → Outcome Done
    → State X
    → Outcome Done × State X
settle success failure before (ok _) after = (ok tt, emit_event success after)
settle success failure before (err e) after = (err e, emit_event (failure e) before)
settle success failure before panic after =
    let e = wrap_err_with_code ErrCode.unexpected_condition [] in
    (err e, emit_event (failure e) before)

unfoldable pub process :
    {X : Type 0} → Event → (Error → Event) → Action (State X) Done → Action (State X) Done
process success failure body s = let (r, t) = body s in settle success failure s r t

abbrev pub no_plan : Plan
no_plan = record { name = ""; height = 0; info = "" }

module _ {X : Type 0} (env : Env X) where
  unfoldable pub get_pending_upgrade : State X → Outcome Plan
  get_pending_upgrade s = elim s.pending_upgrade [
    | none ↦ err (cause upgrade_not_found ∷ [])
    | some value ↦ env.codecs.unmarshal_plan value
  ]

  unfoldable pub is_upgrade_pending : State X → Bool
  unfolding get_pending_upgrade
  is_upgrade_pending s = elim (get_pending_upgrade s) [ ok _ ↦ true | _ ↦ false ]

  unfoldable pub store_pending_upgrade : Plan → Action (State X) Done
  store_pending_upgrade plan =
      modify (λ s. record s { pending_upgrade = some (env.codecs.marshal_plan plan) })

  unfoldable pub set_pending_upgrade : Plan → Action (State X) Done
  unfolding is_upgrade_pending store_pending_upgrade
  set_pending_upgrade plan = do
    outcome (env.modules.validate_basic plan)
    fail_if (ltb plan.height env.staking.block_height)
        (wrap_err_with_code ErrCode.invalid_request (cause invalid_request ∷ []))
    pending ← gets is_upgrade_pending
    fail_if pending (cause upgrade_pending ∷ [])
    store_pending_upgrade plan

  unfoldable pub reset_pending_upgrade : Action (State X) Done
  reset_pending_upgrade = modify (λ s. record s { pending_upgrade = none })

  -- Whether the pending upgrade's height is reached, with its plan
  unfoldable pub should_upgrade : State X → Bool × Plan
  unfolding get_pending_upgrade
  should_upgrade s = elim (get_pending_upgrade s) [
    | ok plan ↦ if leb plan.height env.staking.block_height then (true, plan) else (false, no_plan)
    | _ ↦ (false, no_plan)
  ]

  unfoldable pub schedule_upgrade : SoftwareUpgrade → Bool → Action (State X) Done
  schedule_upgrade ev terence =
      let plan : Plan = record { name = ev.name; height = ev.height; info = ev.info } in
      if terence
      then map_err (coded ((upgrade_pending, ErrCode.pending_upgrade_exists) ∷ []))
          (set_pending_upgrade plan)
      else map_err (coded ((invalid_request, ErrCode.invalid_request) ∷ []))
          (call (env.modules.schedule_upgrade_plan plan))

  unfoldable pub cancel_upgrade : Bool → Action (State X) Done
  cancel_upgrade terence =
      if terence
      then reset_pending_upgrade
      else map_err (coded ((invalid_request, ErrCode.invalid_request) ∷ []))
          (call env.modules.clear_upgrade_plan)

  -- A failure to write the plan to disk is logged.
  unfoldable pub software_upgrade_body : SoftwareUpgrade → Action (State X) Done
  software_upgrade_body ev = do
    terence ← outcome (is_terence env.staking.chain_id env.staking.block_height)
    schedule_upgrade ev terence
    skip_failure (
        call (
          env.modules.dump_upgrade_info_to_disk ev.height
            (record { name = ev.name; height = ev.height; info = ev.info })))

  abbrev pub software_upgrade_attributes : SoftwareUpgrade → List Attribute
  software_upgrade_attributes ev =
      (block_height, num env.staking.block_height)
      ∷ (upgrade_name, text ev.name)
      ∷ (upgrade_height, num ev.height)
      ∷ (upgrade_info, text ev.info)
      ∷ (tx_hash, bytes ev.tx_hash)
      ∷ []

  unfoldable pub process_software_upgrade : SoftwareUpgrade → Action (State X) Done
  process_software_upgrade ev =
      process (event_of upgrade_success (software_upgrade_attributes ev))
        (failure_of upgrade_failure (software_upgrade_attributes ev)) (software_upgrade_body ev)

  unfoldable pub cancel_upgrade_body : Action (State X) Done
  cancel_upgrade_body = do
    terence ← outcome (is_terence env.staking.chain_id env.staking.block_height)
    cancel_upgrade terence

  abbrev pub cancel_upgrade_attributes : CancelUpgrade → List Attribute
  cancel_upgrade_attributes ev =
      (block_height, num env.staking.block_height) ∷ (tx_hash, bytes ev.tx_hash) ∷ []

  unfoldable pub process_cancel_upgrade : CancelUpgrade → Action (State X) Done
  process_cancel_upgrade ev =
      process (event_of cancel_upgrade_success (cancel_upgrade_attributes ev))
        (failure_of cancel_upgrade_failure (cancel_upgrade_attributes ev)) cancel_upgrade_body

  unfoldable pub upgrade_log : EthLog → Action (State X) Done
  upgrade_log log s = elim log.topics [
    | [] ↦ (panic, s)
    | t ∷ ts ↦
        switch t
          ((
            env.contracts.software_upgrade_id,
            skip_failure
                (outcome (env.contracts.parse_software_upgrade log) >>= process_software_upgrade),
          )
            ∷ (
              env.contracts.cancel_upgrade_id,
              skip_failure
                  (outcome (env.contracts.parse_cancel_upgrade log) >>= process_cancel_upgrade),
            )
            ∷ [])
          s
  ]

  unfoldable pub process_upgrade_events : List EvmEvent → Action (State X) Done
  process_upgrade_events [] = pure tt
  process_upgrade_events (l ∷ logs) =
      let rest = process_upgrade_events logs in
      do
        outcome (verify l)
        log ← outcome (to_eth_log env.contracts.ip_token_staking.bytes_to_hash l)
        upgrade_log log
        rest
