-- ===== src/App/Forks/Due.antt =====
-- What the pre-blocker does with a pending upgrade.
use story.Base.{◌≡◌, ◌∙◌, refl, sym, ap, Bool, true, false, leb, none, if◌then◌else◌, arith}
use story.Action.{Outcome, ok, err, panic, Action, ◌>>◌}
use story.Action.Laws.{bind_ok_inv}
use story.Engine.Types.{Plan}
use story.Engine.State.{Env, State, call}
use story.Engine.Upgrades.{get_pending_upgrade, should_upgrade, no_plan, reset_pending_upgrade}
use story.App.Forks.{schedule_fork_upgrade, hand_over, schedule_due, pre_blocker}

module _ {X : Type 0} (env : Env X) where
  -- A plan that is not due is not given.
  no_plan_given : (s : State X) (p : Plan) → should_upgrade env s ≡ (false, p) → p ≡ no_plan
  unfolding should_upgrade
  no_plan_given s p h = go (get_pending_upgrade env s) h
    where
      go :
          (r : Outcome Plan)
          → ◌≡◌ {A = Bool × Plan}
              (elim r [
                | ok plan ↦
                    if leb plan.height env.staking.block_height
                    then (true, plan)
                    else (false, no_plan)
                | _ ↦ (false, no_plan)
              ])
              (false, p)
          → p ≡ no_plan
      go (ok plan) h = ground arith
      go (err x) h = ap (λ q. q.1) (sym h)
      go panic h = ap (λ q. q.1) (sym h)

  -- Only the pending plan decides.
  same_pending :
      (s t : State X)
      → t.pending_upgrade ≡ s.pending_upgrade
      → should_upgrade env t ≡ should_upgrade env s
  unfolding should_upgrade get_pending_upgrade
  same_pending s t e = rw e refl

  reset_not_due : (s : State X) → s.pending_upgrade ≡ none → should_upgrade env s ≡ (false, no_plan)
  unfolding should_upgrade get_pending_upgrade
  reset_not_due s e = rw e refl

  hand_over-not_due :
      (d : Bool × Plan) (s t : State X)
      → should_upgrade env s ≡ d
      → hand_over env d s ≡ (ok tt, t)
      → should_upgrade env t ≡ (false, no_plan)
  unfolding hand_over reset_pending_upgrade
  hand_over-not_due (false, p) s t e h =
      ap (should_upgrade env) (λ i. (sym h i).1) ∙ e ∙ ap (λ p. (false, p)) (no_plan_given s p e)
  hand_over-not_due (true, p) s t e h =
      let (_, u, _, last) =
        bind_ok_inv (call (env.modules.schedule_upgrade_plan p)) (λ _. reset_pending_upgrade env) s
          t tt h in
      reset_not_due t (λ i. (sym last i).1.pending_upgrade)

  -- After a pre-blocker that succeeds no plan is left pending whose height is reached, if the modules'
  -- own pre-blockers leave the pending plan alone.
  pub pre_blocker-should_upgrade :
      {A : Type 0} (pre_block : Action (State X) A) (a : A) (s t : State X)
      → ((u : State X) → (pre_block u).1.pending_upgrade ≡ u.pending_upgrade)
      → pre_blocker env pre_block s ≡ (ok a, t)
      → should_upgrade env t ≡ (false, no_plan)
  unfolding pre_blocker schedule_due
  pre_blocker-should_upgrade pre_block a s t keeps h =
      let (_, u, _, rest) =
        bind_ok_inv (schedule_fork_upgrade env) (λ _. schedule_due env >> pre_block) s t a h in
      let (_, v, due, last) = bind_ok_inv (schedule_due env) (λ _. pre_block) u t a rest in
      same_pending v t ((λ i. (sym last i).1.pending_upgrade) ∙ keeps v)
      ∙ hand_over-not_due (should_upgrade env u) u v refl due
