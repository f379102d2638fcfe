-- ===== src/Staking/Genesis.antt =====
-- client/x/evmstaking/keeper/genesis.go: the first state of the module, and its export.
pub mod RoundTrip
use story.Base.{String, Option, none, some, List, [], ◌∷◌}
use story.Action.{Outcome, ok, err, panic, Action, Done, pure, gets, modify, outcome, ◌>>=◌, ◌>>◌}
use story.Queue.{initialize}
use story.Staking.Types.{Params, SweepIndex}
use story.Staking.External.{Env, Validator}
use story.Staking.State.{State, insert, query, on_withdrawals, on_rewards}
use story.Staking.Params.{
  validate, get_params, set_params, get_validator_sweep_index, set_validator_sweep_index,
}

pub record GenesisState : Type 0 where
  pub params : Params
  pub validator_sweep_index : SweepIndex

unfoldable pub validate_genesis : GenesisState → Outcome Done
validate_genesis gs = validate gs.params

module _ {X : Type 0} where
  unfoldable pub set_addresses : String → String → Action (State X) Done
  set_addresses k v = do
    modify (λ s. record s { delegator_withdraw_address = insert k v s.delegator_withdraw_address })
    modify (λ s. record s { delegator_reward_address = insert k v s.delegator_reward_address })

  -- The loop over the validators. A key of another type ends it with the nil error of
  -- `GetAllValidators`.
  unfoldable pub init_validators : Env X → List Validator → Action (State X) Done
  init_validators env [] = pure tt
  init_validators env (v ∷ vs) =
      let rest = init_validators env vs in
      elim v.consensus_pubkey [
        | none ↦ pure tt
        | some key ↦
            outcome (env.pubkey_to_address key)
            >>= (λ addr. set_addresses (env.acc_string addr) (env.address_string addr) >> rest)
      ]

  unfoldable pub init_genesis : Env X → GenesisState → Action (State X) Done
  init_genesis env gs = do
    outcome (validate_genesis gs)
    set_params env gs.params
    set_validator_sweep_index env gs.validator_sweep_index
    on_withdrawals initialize
    on_rewards initialize
    vals ← query env.get_all_validators
    init_validators env vals

  unfoldable pub export_genesis : Env X → Action (State X) GenesisState
  export_genesis env = do
    params ← get_params env
    index ← get_validator_sweep_index env
    pure (record { params = params; validator_sweep_index = index })
