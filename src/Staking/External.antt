-- ===== src/Staking/External.antt =====
-- What the module calls and does not implement: codecs and keys (Cosmos SDK, go-ethereum), and the
-- keepers of the Cosmos modules, with one type `X` for all their state. The interfaces are those of
-- client/x/evmstaking/types/expected_keepers.go. Coins are amounts of the one bonded denomination.
use story.Base.{ℕ, Bool, String, List, Option}
use story.Action.{Outcome, Action, Done}
use story.Staking.Types.{Params, SweepIndex}

-- What the code reads of a validator and a delegation of the staking module.
pub record Validator : Type 0 where
  pub operator : String
  pub jailed : Bool
  pub support_token_type : ℕ
  pub description : String
  pub min_self_delegation : ℕ
  -- the bytes of the cached consensus key, where it is a `cryptotypes.PubKey`
  pub consensus_pubkey : Option (List ℕ)

pub record Delegation : Type 0 where
  pub delegator_address : String
  pub validator_address : String

pub record UnbondedEntry : Type 0 where
  pub delegator_address : String
  pub validator_address : String
  pub amount : ℕ

-- The arguments of `MsgCreateValidator`, its rates in basis points.
pub record CreateValidatorMsg : Type 0 where
  pub operator : String
  pub pubkey : List ℕ
  pub value : ℕ
  pub moniker : String
  pub commission_rate : ℕ
  pub max_commission_rate : ℕ
  pub max_commission_change_rate : ℕ
  pub min_self_delegation : ℕ
  pub support_token_type : ℕ

pub record Codec : Type 0 where
  pub hex_to_address : String → ℕ
  -- `common.BytesToAddress` of a word of 32 bytes
  pub bytes_to_address : ℕ → ℕ
  pub address_string : ℕ → String
  pub acc_string : ℕ → String
  pub val_string : ℕ → String
  pub acc_from_bech32 : String → Outcome ℕ
  pub val_from_bech32 : String → Outcome ℕ
  -- `ValidatorAddressCodec().StringToBytes`
  pub validator_codec : String → Outcome ℕ
  -- `hexutil.Encode` of the bytes of an address
  pub hex_encode : ℕ → String
  -- `DecompressPubkey` and `PubkeyToAddress`
  pub pubkey_to_address : List ℕ → Outcome ℕ
  -- `big.Int.String`
  pub decimal : ℕ → String
  -- `cdc.Marshal` and `cdc.Unmarshal` of the parameters and of the sweep index
  pub marshal_params : Params → Outcome (List ℕ)
  pub unmarshal_params : List ℕ → Outcome Params
  pub marshal_sweep_index : SweepIndex → Outcome (List ℕ)
  pub unmarshal_sweep_index : List ℕ → Outcome SweepIndex
  -- `math.Int.Uint64`, which panics out of range
  pub uint64 : ℕ → Outcome ℕ
  -- `sdk.NewCoin` at an `int64` with this bit pattern, which panics below zero
  pub coin_of_int64 : ℕ → Outcome ℕ

pub record Keepers (X : Type 0) : Type 0 where
  pub has_account : ℕ → X → Bool
  -- `NewAccountWithAddress`, then `SetAccount`
  pub create_account : ℕ → Action X Done
  pub mint_coins : ℕ → Action X Done
  pub burn_coins : ℕ → Action X Done
  pub send_module_to_account : ℕ → ℕ → Action X Done
  pub send_account_to_module : ℕ → ℕ → Action X Done
  pub spendable_coin : ℕ → X → ℕ
  pub get_validator : ℕ → X → Outcome Validator
  pub get_all_validators : X → Outcome (List Validator)
  pub get_delegation : ℕ → ℕ → X → Outcome Delegation
  pub get_validator_delegations : ℕ → X → Outcome (List Delegation)
  pub min_delegation : X → Outcome ℕ
  pub flexible_period_type : X → Outcome ℕ
  pub locked_token_type : X → Outcome ℕ
  pub singularity_height : X → Outcome ℕ
  pub flexible_period_delegation_id : String
  pub end_blocker_with_unbonded_entries : Action X (List (List ℕ × ℕ) × List UnbondedEntry)
  -- the message server of the staking module
  pub delegate : String → String → ℕ → String → ℕ → Action X Done
  pub undelegate : String → String → String → ℕ → Action X ℕ
  pub begin_redelegate : String → String → String → String → ℕ → Action X ℕ
  pub new_create_validator : CreateValidatorMsg → Outcome CreateValidatorMsg
  pub create_validator : CreateValidatorMsg → Action X Done
  pub edit_validator : String → String → ℕ → ℕ → Action X Done
  pub unjail : ℕ → Action X Done
  pub increment_validator_period : Validator → Action X ℕ
  -- rewards and commissions are decimals with 18 places
  pub calculate_delegation_rewards : Validator → Delegation → ℕ → Action X ℕ
  pub accumulated_commission : ℕ → X → Outcome ℕ
  pub withdraw_delegation_rewards : ℕ → ℕ → Action X ℕ
  pub withdraw_validator_commission : ℕ → Action X ℕ
  pub ubi_balance : X → Outcome ℕ
  pub withdraw_ubi_to_module : Action X ℕ

-- What a block's context tells.
pub record Context : Type 0 where
  pub block_height : ℕ
  pub chain_id : String
  pub block_time : ℕ

pub record Env (X : Type 0) : Type 0 where
  pub codec : Codec
  pub open codec use *
  pub keepers : Keepers X
  pub open keepers use *
  pub context : Context
  pub open context use *
