-- ===== src/Mint/Queries.antt =====
-- client/x/mint/keeper/grpc_query.go: the query of the parameters, whose request is not read.
use story.Base.{◌≡◌, ap, inl, inr}
use story.Action.{Outcome, ok}
use story.Mint.Params.{Decimals, Params}
use story.Mint.Begin.{State, get_params, set_params}
use story.Mint.Begin.Stored.{set_params_lem}

module _ (D : Decimals) {X : Type 0} where
  unfoldable pub query_params : State D X → Outcome (Params D)
  query_params s = (get_params D s).0

  -- After parameters were set, the query answers them.
  pub query_params-set_params :
      (p : Params D) (s : State D X)
      → (set_params D p s).0 ≡ ok tt
      → query_params (set_params D p s).1 ≡ ok p
  unfolding query_params
  query_params-set_params p s h = elim (set_params_lem D p s) [
    | inl (_, stored, read) ↦ rw stored (ap (λ r. r.0) read)
    | inr (_, refused, _) ↦ absurd (refused h)
  ]
