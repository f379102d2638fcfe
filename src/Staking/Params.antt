-- ===== src/Staking/Params.antt =====
-- client/x/evmstaking/keeper/params.go and types/params.go: the parameters and the sweep index, with
-- the zero values that a read gives where nothing is stored, and the validation of parameters.
pub mod Valid
use story.Base.{ℕ, ◌*◌, Option, none, some, ltb, ◌==◌, if◌then◌else◌, List, []}
use story.Action.{
  Outcome, ok, err, panic, Action, Done, ask, outcome, gets, modify, ◌>>=◌, ◌>>◌, pure,
}
use story.Staking.Types.{Params, SweepIndex, no_params}
use story.Staking.External.{Env}
use story.Staking.State.{State}

-- A field of parameters that were read
abbrev pub field_of : Outcome Params → (Params → ℕ) → Outcome ℕ
field_of r f = elim r [ ok p ↦ ok (f p) | err e ↦ err e | panic ↦ panic ]

abbrev pub default_sweep_index : SweepIndex
default_sweep_index = record { next_val_index = 0; next_val_del_index = 0 }

module _ {X : Type 0} (env : Env X) where
  unfoldable pub read_params : State X → Outcome Params
  read_params s = elim s.params [ none ↦ ok no_params | some bz ↦ env.unmarshal_params bz ]

  unfoldable pub get_params : Action (State X) Params
  get_params = ask read_params

  unfoldable pub set_params : Params → Action (State X) Done
  set_params p = do bz ← outcome (env.marshal_params p); modify (λ s. record s { params = some bz })

  unfoldable pub max_withdrawal_per_block : Action (State X) ℕ
  max_withdrawal_per_block = ask (λ s. field_of (read_params s) (λ p. p.max_withdrawal_per_block))

  unfoldable pub max_sweep_per_block : Action (State X) ℕ
  max_sweep_per_block = ask (λ s. field_of (read_params s) (λ p. p.max_sweep_per_block))

  unfoldable pub min_partial_withdrawal_amount : Action (State X) ℕ
  min_partial_withdrawal_amount =
      ask (λ s. field_of (read_params s) (λ p. p.min_partial_withdrawal_amount))

  unfoldable pub read_sweep_index : State X → Outcome SweepIndex
  read_sweep_index s = elim s.validator_sweep_index [
    | none ↦ ok default_sweep_index
    | some bz ↦ env.unmarshal_sweep_index bz
  ]

  unfoldable pub get_validator_sweep_index : Action (State X) SweepIndex
  get_validator_sweep_index = ask read_sweep_index

  unfoldable pub set_validator_sweep_index : SweepIndex → Action (State X) Done
  set_validator_sweep_index i = do
    bz ← outcome (env.marshal_sweep_index i)
    modify (λ s. record s { validator_sweep_index = some bz })

pub default_params : Params
default_params = record {
  max_withdrawal_per_block = 32;
  max_sweep_per_block = 128;
  min_partial_withdrawal_amount = 8_000_000_000;
  ubi_withdraw_address = "";
}

validate_max_withdrawal_per_block : ℕ → Outcome Done
validate_max_withdrawal_per_block v = if v == 0 then err [] else ok tt

validate_max_sweep_per_block : ℕ → ℕ → Outcome Done
validate_max_sweep_per_block sweep withdrawal =
    if sweep == 0 then err [] else if ltb sweep withdrawal then err [] else ok tt

validate_min_partial_withdrawal_amount : ℕ → Outcome Done
validate_min_partial_withdrawal_amount v = if v == 0 then err [] else ok tt

-- `Params.Validate`: the first check that fails gives the error.
unfoldable pub validate : Params → Outcome Done
unfolding validate_max_withdrawal_per_block validate_max_sweep_per_block
    validate_min_partial_withdrawal_amount
validate p = elim (validate_max_withdrawal_per_block p.max_withdrawal_per_block) [
  | ok _ ↦ elim (validate_max_sweep_per_block p.max_sweep_per_block p.max_withdrawal_per_block) [
    | ok _ ↦ validate_min_partial_withdrawal_amount p.min_partial_withdrawal_amount
    | other ↦ other
  ]
  | other ↦ other
]
