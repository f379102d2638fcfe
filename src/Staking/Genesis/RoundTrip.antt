-- ===== src/Staking/Genesis/RoundTrip.antt =====
-- What the genesis stores is what an export reads back.
use story.Base.{ℕ, ◌≡◌, refl, ap, ◌∙◌, subst, sym, Option, none, some, List, [], ◌∷◌, String}
use story.Action.{ok, Action, Done, modify, pure, outcome, ◌>>=◌, ◌>>◌}
use story.Queue.{initialize}
use story.Queue.Represents.{Represents}
use story.Queue.Reads.{initialize-Represents}
use story.Action.Laws.{bind_ok}
use story.Staking.Types.{SweepIndex, no_params}
use story.Staking.External.{Env, Validator}
use story.Staking.State.{State, query, on_withdrawals, on_rewards}
use story.Staking.Params.{
  read_params, read_sweep_index, default_sweep_index, validate, get_params, set_params,
  get_validator_sweep_index, set_validator_sweep_index,
}
use story.Staking.Genesis.{
  GenesisState, validate_genesis, set_addresses, init_validators, init_genesis, export_genesis,
}
use story.Staking.Handlers.Atomic.{
  Keeps, frame, keeping, Keeps-bind, Keeps-then, Keeps-pure, Keeps-query,
}

module _ {X : Type 0} where
  set_addresses-Keeps : (k v : String) → Keeps (set_addresses {X = X} k v)
  unfolding set_addresses
  set_addresses-Keeps k v = record { keeps = λ s. refl }

  init_validators-Keeps : (env : Env X) (vs : List Validator) → Keeps (init_validators env vs)
  unfolding init_validators
  init_validators-Keeps env [] = search keeping
  init_validators-Keeps env (v ∷ vs) =
      validator_Keeps v.consensus_pubkey (init_validators-Keeps env vs)
    where
      validator_Keeps :
          (o : Option (List ℕ))
          → Keeps (init_validators env vs)
          → Keeps {X = X} {A = Done} (elim o [
            | none ↦ pure tt
            | some key ↦ outcome (env.pubkey_to_address key) >>= (λ addr.
                set_addresses (env.acc_string addr) (env.address_string addr)
                >> init_validators env vs)
          ])
      validator_Keeps none k = search keeping
      validator_Keeps (some key) k =
          Keeps-bind (outcome (env.pubkey_to_address key))
            (λ addr.
              set_addresses (env.acc_string addr) (env.address_string addr)
              >> init_validators env vs)
            (Keeps-pure (env.pubkey_to_address key))
            (λ addr.
              Keeps-then (set_addresses (env.acc_string addr) (env.address_string addr))
                (init_validators env vs)
                (set_addresses-Keeps (env.acc_string addr) (env.address_string addr)) k)

-- The state once both queues are there.
stored : {X : Type 0} → List ℕ → List ℕ → State X → State X
stored bz ix s = record s {
  params = some bz;
  validator_sweep_index = some ix;
  withdrawal_queue = (initialize s.withdrawal_queue).1;
  reward_withdrawal_queue = (initialize s.reward_withdrawal_queue).1;
}

frame-init_genesis :
    {X : Type 0} (env : Env X) (gs : GenesisState) (bz ix : List ℕ) (s : State X)
    → validate gs.params ≡ ok tt
    → env.marshal_params gs.params ≡ ok bz
    → env.marshal_sweep_index gs.validator_sweep_index ≡ ok ix
    → frame (init_genesis env gs s).1 ≡ frame (stored bz ix s)
unfolding stored init_genesis initialize validate_genesis set_params set_validator_sweep_index
frame-init_genesis {X} env gs bz ix s v encoded index_encoded =
    let keep =
      (Keeps-bind (query env.get_all_validators) (init_validators env)
          (Keeps-query env.get_all_validators) (init_validators-Keeps env)).keeps
        (stored bz ix s) in
    let queues : Action (State X) Done =
      on_withdrawals initialize
      >> (on_rewards initialize >> (query env.get_all_validators >>= init_validators env)) in
    let rest : Action (State X) Done =
      set_validator_sweep_index env gs.validator_sweep_index >> queues in
    ap (λ q. frame q.1)
      (bind_ok (outcome (validate gs.params)) (λ _. set_params env gs.params >> rest) s s tt
          (ap (λ r. (r, s)) v)
        ∙ bind_ok (set_params env gs.params) (λ _. rest) s (record s { params = some bz }) tt
            (bind_ok (outcome (env.marshal_params gs.params))
              (λ bz. modify (λ s. record s { params = some bz })) s s bz (ap (λ r. (r, s)) encoded))
        ∙ bind_ok (set_validator_sweep_index env gs.validator_sweep_index) (λ _. queues)
            (record s { params = some bz })
            (record s { params = some bz; validator_sweep_index = some ix }) tt
            (bind_ok (outcome (env.marshal_sweep_index gs.validator_sweep_index))
              (λ ix. modify (λ s. record s { validator_sweep_index = some ix }))
              (record s { params = some bz }) (record s { params = some bz }) ix
              (ap (λ r. (r, record s { params = some bz })) index_encoded)))
    ∙ keep

exported :
    {X : Type 0} (env : Env X) (gs : GenesisState) (bz ix : List ℕ) (t : State X)
    → t.params ≡ some bz
    → t.validator_sweep_index ≡ some ix
    → env.unmarshal_params bz ≡ ok gs.params
    → env.unmarshal_sweep_index ix ≡ ok gs.validator_sweep_index
    → (export_genesis env t).0 ≡ ok gs
unfolding export_genesis get_params read_params get_validator_sweep_index read_sweep_index
exported {X} env gs bz ix t p i decoded index_decoded =
    let read : read_params env t ≡ ok gs.params =
      ap (λ o. elim o [ none ↦ ok no_params | some bz ↦ env.unmarshal_params bz ]) p ∙ decoded in
    let index_read : read_sweep_index env t ≡ ok gs.validator_sweep_index =
      ap (λ o. elim o [ none ↦ ok default_sweep_index | some bz ↦ env.unmarshal_sweep_index bz ]) i
      ∙ index_decoded in
    let give : SweepIndex → Action (State X) GenesisState =
      λ index. pure (record { params = gs.params; validator_sweep_index = index }) in
    ap (λ q. q.0)
      (bind_ok (get_params env)
        (λ params. get_validator_sweep_index env >>= λ index.
          pure (record { params = params; validator_sweep_index = index }))
        t t gs.params (ap (λ r. (r, t)) read))
    ∙ ap (λ q. q.0)
        (bind_ok (get_validator_sweep_index env) give t t gs.validator_sweep_index
          (ap (λ r. (r, t)) index_read))

-- After a genesis with valid parameters, where these and the sweep index come back from their encodings,
-- the parameters and the sweep index that an export reads are those of the genesis, and both queues are
-- empty, with their counters at 0. Nothing was stored in the queues before.
pub export_genesis-init_genesis :
    {X : Type 0} (env : Env X) (gs : GenesisState) (bz ix : List ℕ) (s : State X)
    → validate gs.params ≡ ok tt
    → env.marshal_params gs.params ≡ ok bz
    → env.marshal_sweep_index gs.validator_sweep_index ≡ ok ix
    → env.unmarshal_params bz ≡ ok gs.params
    → env.unmarshal_sweep_index ix ≡ ok gs.validator_sweep_index
    → ((i : ℕ) → s.withdrawal_queue.elements i ≡ none)
    → ((i : ℕ) → s.reward_withdrawal_queue.elements i ≡ none)
    → let t = (init_genesis env gs s).1 in
      ((export_genesis env t).0 ≡ ok gs)
      × Represents t.withdrawal_queue 0 []
      × Represents t.reward_withdrawal_queue 0 []
unfolding export_genesis get_params get_validator_sweep_index stored
export_genesis-init_genesis env gs bz ix s v encoded index_encoded decoded index_decoded h k =
    let same = frame-init_genesis env gs bz ix s v encoded index_encoded in
    (
      exported env gs bz ix (init_genesis env gs s).1 (ap (λ f. f.params) same)
          (ap (λ f. f.validator_sweep_index) same) decoded index_decoded,
      subst (λ q. Represents q 0 []) (sym (ap (λ f. f.withdrawal_queue) same))
          (initialize-Represents s.withdrawal_queue h),
      subst (λ q. Represents q 0 []) (sym (ap (λ f. f.reward_withdrawal_queue) same))
          (initialize-Represents s.reward_withdrawal_queue k),
    )
