-- ===== src/Engine/Genesis.antt =====
-- client/x/evmengine/keeper/params.go and genesis.go, types/params.go: the hash of the execution
-- layer's genesis block as the module's parameter, and the first execution head.
pub mod Head
use story.Base.{ℕ, not, Option, none, some, List, [], length, ◌==◌, if◌then◌else◌}
use story.Action.{Outcome, ok, err, panic, Action, Done, pure, outcome, modify, ◌>>=◌, ◌>>◌}
use story.Engine.Types.{Params, GenesisState}
use story.Engine.Convert.{set_bytes}
use story.Engine.State.{Env, State, insert_genesis_head}

abbrev pub new_params : List ℕ → Params
new_params hash = record { execution_block_hash = hash }

-- The zero value, which a read gives where nothing is stored.
abbrev pub default_params : Params
default_params = new_params []

unfoldable pub validate_execution_block_hash : List ℕ → Outcome Done
validate_execution_block_hash hash = if not (length hash == 32) then err [] else ok tt

-- An error in the genesis head is a panic.
abbrev pub or_panic : {X : Type 0} → Outcome Done × State X → Outcome Done × State X
or_panic (ok d, s) = (ok d, s)
or_panic (err e, s) = (panic, s)
or_panic (panic, s) = (panic, s)

module _ {X : Type 0} (env : Env X) where
  unfoldable pub set_params : Params → Action (State X) Done
  set_params p = do
    bz ← outcome (env.codecs.marshal_params p)
    modify (λ s. record s { params = some bz })

  unfoldable pub get_params : State X → Outcome Params
  get_params s = elim s.params [
    | none ↦ ok default_params
    | some bz ↦ env.codecs.unmarshal_params bz
  ]

  unfoldable pub execution_block_hash : State X → Outcome (List ℕ)
  execution_block_hash s = elim (get_params s) [
    | ok p ↦ ok p.execution_block_hash
    | err e ↦ err e
    | panic ↦ panic
  ]

  unfoldable pub init_genesis : GenesisState → Action (State X) Done
  unfolding set_params
  init_genesis gs = do
    outcome (validate_execution_block_hash gs.params.execution_block_hash)
    set_params gs.params
    (λ s. or_panic (insert_genesis_head (set_bytes 0 gs.params.execution_block_hash) s))

  unfoldable pub export_genesis : State X → Outcome GenesisState
  export_genesis s = elim (get_params s) [
    | ok p ↦ ok (record { params = p })
    | err e ↦ panic
    | panic ↦ panic
  ]
