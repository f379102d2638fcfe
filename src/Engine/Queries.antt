-- ===== src/Engine/Queries.antt =====
-- client/x/evmengine/keeper/grpc_query.go: the query of the pending upgrade. `none` is a request that is
-- nil.
use story.Base.{◌≡◌, ◌↔◌, refl, ap, true, false, arith, Option, none, some, []}
use story.Action.{Outcome, ok, err, panic}
use story.Engine.Types.{Plan}
use story.Engine.State.{Env, State}
use story.Engine.Upgrades.{get_pending_upgrade, is_upgrade_pending}

module _ {X : Type 0} (env : Env X) where
  unfoldable pub query_pending_upgrade : Option (Unit {0}) → State X → Outcome Plan
  query_pending_upgrade none s = err []
  query_pending_upgrade (some _) s = get_pending_upgrade env s

  -- An upgrade is pending exactly where the query answers a plan.
  pub query_pending_upgrade_iff :
      (s : State X)
      → (is_upgrade_pending env s ≡ true)
        ↔ ((plan : Plan) × (query_pending_upgrade (some tt) s ≡ ok plan))
  unfolding query_pending_upgrade is_upgrade_pending
  query_pending_upgrade_iff s = (
    λ h. answered (get_pending_upgrade env s) h,
    λ (plan, h). ap (λ r. elim r [ ok _ ↦ true | _ ↦ false ]) h,
  )
    where
      answered :
          (r : Outcome Plan)
          → elim r [ ok _ ↦ true | _ ↦ false ] ≡ true
          → (plan : Plan) × (r ≡ ok plan)
      answered (ok plan) h = (plan, refl)
      answered (err e) h = absurd (ground arith)
      answered panic h = absurd (ground arith)
