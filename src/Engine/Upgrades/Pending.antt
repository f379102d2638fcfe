-- ===== src/Engine/Upgrades/Pending.antt =====
-- The pending upgrade: set once, read back, refused a second time, and gone after a cancellation.
use story.Base.{
  ℕ, ◌≤◌, ◌≡◌, refl, ap, ◌∙◌, Bool, true, false, some, [], ◌∷◌, leb, ltb, if◌then◌else◌, arith,
}
use story.ErrCode
use story.Errors.{
  Error, cause, upgrade_pending, wrap_err_with_code, unwrap_err_code, invalid_request,
}
use story.Errors.Codes.{unwrap_err_code-wrap_err_with_code}
use story.Action.{ok, err, panic, Action, Done, fail_if, gets, outcome, ◌>>=◌, ◌>>◌}
use story.Action.Laws.{bind_ok, bind_err}
use story.Engine.Types.{Plan, SoftwareUpgrade}
use story.Engine.State.{Env, State, call}
use story.Netconf.{is_terence}
use story.Staking.Handlers.{event_of, failure_of, coded}
use story.Staking.Dispatch.{skip_failure}
use story.Staking.Events.{upgrade_success, upgrade_failure}
use story.Engine.Upgrades.{
  no_plan, get_pending_upgrade, is_upgrade_pending, store_pending_upgrade, set_pending_upgrade,
  should_upgrade, schedule_upgrade, software_upgrade_body, software_upgrade_attributes,
  process_software_upgrade, process, emit_event, settle,
}

abbrev pub pending_with : {X : Type 0} → Env X → Plan → State X → State X
pending_with env plan s = record s { pending_upgrade = some (env.codecs.marshal_plan plan) }

-- The same node at another height
abbrev pub at_height : {X : Type 0} → Env X → ℕ → Env X
at_height env height = record env {
  staking = record (env.staking) {
    context = record (env.staking.context) { block_height = height };
  };
}

module _ {X : Type 0} (env : Env X) (plan : Plan) (s : State X)
    (fits : env.modules.validate_basic plan ≡ ok tt)
    (ahead : env.staking.block_height ≤ plan.height) where
  abbrev once_pending : Bool → Action (State X) Done
  once_pending b = fail_if b (cause upgrade_pending ∷ []) >> store_pending_upgrade env plan

  set_step :
      (b : Bool) → is_upgrade_pending env s ≡ b → set_pending_upgrade env plan s ≡ once_pending b s
  unfolding set_pending_upgrade
  set_step b e =
      let late : ltb plan.height env.staking.block_height ≡ false = ground arith in
      let refuse = wrap_err_with_code ErrCode.invalid_request (cause invalid_request ∷ []) in
      bind_ok (outcome (env.modules.validate_basic plan))
        (λ _.
          fail_if (ltb plan.height env.staking.block_height) refuse
          >> (gets (is_upgrade_pending env) >>= once_pending))
        s s tt (ap (λ r. (r, s)) fits)
      ∙ bind_ok (fail_if (ltb plan.height env.staking.block_height) refuse)
          (λ _. gets (is_upgrade_pending env) >>= once_pending) s s tt
          (ap (λ b. fail_if b refuse s) late)
      ∙ bind_ok (gets (is_upgrade_pending env)) once_pending s s b (ap (λ b. (ok b, s)) e)

  -- With no upgrade pending, a valid plan that is not in the past, and that its encoding gives back,
  -- is set; it is then the pending plan, and the network should upgrade at exactly the heights from the
  -- plan's on.
  pub set_pending_upgrade_lem :
      env.codecs.unmarshal_plan (env.codecs.marshal_plan plan) ≡ ok plan
      → is_upgrade_pending env s ≡ false
      → (set_pending_upgrade env plan s ≡ (ok tt, pending_with env plan s))
        × (get_pending_upgrade env (pending_with env plan s) ≡ ok plan)
        × ((height : ℕ)
            → should_upgrade (at_height env height) (pending_with env plan s)
              ≡ (if leb plan.height height then (true, plan) else (false, no_plan)))
  unfolding store_pending_upgrade get_pending_upgrade should_upgrade
  set_pending_upgrade_lem codec free =
      (set_step false free, codec, λ height. rw (codec, should_upgrade, get_pending_upgrade) refl)

  -- While an upgrade is pending no other is set, and the state stays.
  pub set_pending_upgrade_again :
      is_upgrade_pending env s ≡ true
      → set_pending_upgrade env plan s ≡ (err (cause upgrade_pending ∷ []), s)
  set_pending_upgrade_again busy = set_step true busy

module _ {X : Type 0} (env : Env X) (ev : SoftwareUpgrade) (s : State X) where
  abbrev plan_of : Plan
  plan_of = record { name = ev.name; height = ev.height; info = ev.info }

  abbrev pub pending_error : Error
  pending_error = wrap_err_with_code ErrCode.pending_upgrade_exists (cause upgrade_pending ∷ [])

  write : Action (State X) Done
  write = skip_failure (call (env.modules.dump_upgrade_info_to_disk ev.height plan_of))

  refused :
      schedule_upgrade env ev true s ≡ (err pending_error, s)
      → is_terence env.staking.chain_id env.staking.block_height ≡ ok true
      → software_upgrade_body env ev s ≡ (err pending_error, s)
  unfolding software_upgrade_body write
  refused r t =
      bind_ok (outcome (is_terence env.staking.chain_id env.staking.block_height))
        (λ terence. schedule_upgrade env ev terence >> write) s s true (ap (λ r. (r, s)) t)
      ∙ bind_err (schedule_upgrade env ev true) (λ _. write) s s pending_error r

  -- From the Terence upgrade on, a valid upgrade that the contract schedules while another is pending
  -- fails with `PendingUpgradeExists`: the failure's event is emitted with that code, and nothing else
  -- changes.
  pub process_software_upgrade_pending :
      is_terence env.staking.chain_id env.staking.block_height ≡ ok true
      → env.modules.validate_basic plan_of ≡ ok tt
      → env.staking.block_height ≤ ev.height
      → is_upgrade_pending env s ≡ true
      → (process_software_upgrade env ev s ≡ (
        err pending_error,
        emit_event
            (failure_of upgrade_failure (software_upgrade_attributes env ev) pending_error)
            s,
      ))
        × (unwrap_err_code pending_error ≡ ErrCode.pending_upgrade_exists)
  unfolding process_software_upgrade process settle schedule_upgrade
  process_software_upgrade_pending t fits ahead busy =
      let r : schedule_upgrade env ev true s ≡ (err pending_error, s) =
        ap
          (λ p. (
            elim p.0 [
              | ok a ↦ ok a
              | err e ↦ err (coded ((upgrade_pending, ErrCode.pending_upgrade_exists) ∷ []) e)
              | panic ↦ panic
            ],
            p.1,
          ))
          (set_pending_upgrade_again env plan_of s fits ahead busy) in
      (
        ap
            (λ p.
              settle (event_of upgrade_success (software_upgrade_attributes env ev))
                (failure_of upgrade_failure (software_upgrade_attributes env ev)) s p.0 p.1)
            (refused r t),
        unwrap_err_code-wrap_err_with_code ErrCode.pending_upgrade_exists
            (cause upgrade_pending ∷ []) (omega arith) (λ k. refl),
      )
