-- ===== src/Cli/Validate.antt =====
-- client/cmd/flags.go: the checks of a command before it runs. `changed` tells which flags are given.
use story.Base.{ℕ, Bool, true, false, not, String, none, some, List, [], ◌∷◌, ltb, if◌then◌else◌}
use story.Action.{Outcome, ok, err, Action, Done, pure, fail, outcome, fail_if, ◌>>=◌, ◌>>◌}
use story.Cli.World.{
  less_than, BaseConfig, StakeConfig, CreateValidatorConfig, UnstakeConfig, RedelegateConfig,
  UnjailConfig, UpdateCommissionConfig, Env, State,
}
use story.Cli.KeyUtils.{priv_key_to_cmp_pub_key}
use story.Cli.Transaction.{get_uint256}
use story.Cli.Queries.{
  amount_of, is_validator_found, validate_min_self_delegation, validate_new_commission_rate,
}

-- All of the flags are given.
unfoldable pub validate_flags : (String → Bool) → List String → Outcome Done
validate_flags changed [] = ok tt
validate_flags changed (flag ∷ flags) =
    let rest = validate_flags changed flags in if changed flag then rest else err []

module _ {X K : Type 0} (env : Env X K) where
  -- The amount is at least what a getter of the contract returns.
  abbrev pub validate_min : BaseConfig → String → String → Action (State X) Done
  validate_min cfg getter text = do
    amount ← outcome (amount_of env text)
    min ← get_uint256 env cfg getter
    fail_if (less_than amount min) []

  unfoldable pub validate_min_stake_amount : StakeConfig → Action (State X) Done
  validate_min_stake_amount cfg = validate_min cfg.base "minStakeAmount" cfg.stake_amount

  unfoldable pub validate_min_unstake_amount : UnstakeConfig → Action (State X) Done
  validate_min_unstake_amount cfg =
      validate_min cfg.stake.base "minUnstakeAmount" cfg.stake.stake_amount

  unfoldable pub validate_min_redelegate_amount : RedelegateConfig → Action (State X) Done
  validate_min_redelegate_amount cfg = validate_min cfg.base "minStakeAmount" cfg.stake_amount

  -- The comparisons of the three rates
  unfoldable pub check_rates : ℕ → CreateValidatorConfig → Outcome Done
  check_rates min cfg =
      if ltb cfg.commission_rate min
      then err []
      else if ltb cfg.max_commission_rate cfg.commission_rate
      then err []
      else if ltb cfg.max_commission_rate cfg.max_commission_change_rate
      then err []
      else ok tt

  unfoldable pub validate_commission_rate : CreateValidatorConfig → Action (State X) Done
  validate_commission_rate cfg = do
    min ← get_uint256 env cfg.stake.base "minCommissionRate"
    outcome (check_rates min cfg)

  -- Without an API nothing is checked; with one the validator must be there, or must not.
  abbrev pub check_validator :
      BaseConfig → Bool → List ℕ → (String → Action (State X) Done) → Action (State X) Done
  check_validator cfg expected pub_key rest = elim cfg.story_api [
    | none ↦ pure tt
    | some endpoint ↦ do
      exist ← is_validator_found env endpoint pub_key
      (if same exist expected then rest endpoint else fail [])
  ]
    where
      same : Bool → Bool → Bool
      same true b = b
      same false b = not b

  -- The public key of the private key of the configuration
  abbrev pub own_pub_key : BaseConfig → Action (State X) (List ℕ)
  own_pub_key cfg = do
    bz ← outcome (env.codec.hex_decode cfg.private_key)
    outcome (priv_key_to_cmp_pub_key env.codec.curve bz)

  abbrev nothing : String → Action (State X) Done
  nothing endpoint = pure tt

  unfoldable pub validate_validator_create_flags :
      (String → Bool) → CreateValidatorConfig → Action (State X) Done
  validate_validator_create_flags changed cfg = do
    outcome (validate_flags changed ("moniker" ∷ []))
    validate_min_stake_amount cfg.stake
    validate_commission_rate cfg
    pub_key ← own_pub_key cfg.stake.base
    check_validator cfg.stake.base false pub_key nothing

  unfoldable pub validate_operator_flags : (String → Bool) → Action (State X) Done
  validate_operator_flags changed = outcome (validate_flags changed [])

  unfoldable pub validate_withdrawal_flags : (String → Bool) → Action (State X) Done
  validate_withdrawal_flags changed = outcome (validate_flags changed ("withdrawal-address" ∷ []))

  unfoldable pub validate_rewards_flags : (String → Bool) → Action (State X) Done
  validate_rewards_flags changed = outcome (validate_flags changed ("rewards-address" ∷ []))

  -- The validator of a public key in hexadecimal must be there.
  abbrev pub check_found : BaseConfig → String → Action (State X) Done
  check_found cfg text = do
    pub_key ← outcome (env.codec.hex_decode text)
    check_validator cfg true pub_key nothing

  unfoldable pub validate_validator_stake_flags :
      (String → Bool) → StakeConfig → Action (State X) Done
  validate_validator_stake_flags changed cfg = do
    outcome (validate_flags changed ("validator-pubkey" ∷ "stake" ∷ []))
    validate_min_stake_amount cfg
    check_found cfg.base cfg.validator_pub_key

  unfoldable pub validate_validator_stake_on_behalf_flags :
      (String → Bool) → StakeConfig → Action (State X) Done
  validate_validator_stake_on_behalf_flags changed cfg = do
    outcome (validate_flags changed ("validator-pubkey" ∷ "delegator-address" ∷ "stake" ∷ []))
    validate_min_stake_amount cfg
    check_found cfg.base cfg.validator_pub_key

  unfoldable pub validate_validator_unstake_flags :
      (String → Bool) → UnstakeConfig → Action (State X) Done
  validate_validator_unstake_flags changed cfg = do
    outcome (validate_flags changed ("validator-pubkey" ∷ "unstake" ∷ []))
    validate_min_unstake_amount cfg
    check_found cfg.stake.base cfg.stake.validator_pub_key

  unfoldable pub validate_validator_unstake_on_behalf_flags :
      (String → Bool) → UnstakeConfig → Action (State X) Done
  validate_validator_unstake_on_behalf_flags changed cfg = do
    outcome (validate_flags changed ("validator-pubkey" ∷ "delegator-address" ∷ "unstake" ∷ []))
    validate_min_unstake_amount cfg
    check_found cfg.stake.base cfg.stake.validator_pub_key

  -- Both validators of a redelegation must be there; both keys are decoded first.
  abbrev pub check_both : RedelegateConfig → Action (State X) Done
  check_both cfg = do
    src ← outcome (env.codec.hex_decode cfg.validator_src_pub_key)
    dst ← outcome (env.codec.hex_decode cfg.validator_dst_pub_key)
    check_validator cfg.base true src (λ _. check_validator cfg.base true dst nothing)

  unfoldable pub validate_validator_redelegate_flags :
      (String → Bool) → RedelegateConfig → Action (State X) Done
  validate_validator_redelegate_flags changed cfg = do
    outcome (
        validate_flags changed
          ("validator-src-pubkey" ∷ "validator-dst-pubkey" ∷ "redelegate" ∷ []))
    validate_min_redelegate_amount cfg
    check_both cfg

  unfoldable pub validate_validator_redelegate_on_behalf_flags :
      (String → Bool) → RedelegateConfig → Action (State X) Done
  validate_validator_redelegate_on_behalf_flags changed cfg = do
    outcome (
        validate_flags changed (
          "delegator-address" ∷ "validator-src-pubkey" ∷ "validator-dst-pubkey" ∷ "redelegate"
          ∷ []))
    validate_min_redelegate_amount cfg
    check_both cfg

  unfoldable pub validate_validator_unjail_flags :
      (String → Bool) → UnjailConfig → Action (State X) Done
  validate_validator_unjail_flags changed cfg = do
    outcome (validate_flags changed [])
    pub_key ← own_pub_key cfg.base
    check_validator cfg.base true pub_key
        (λ endpoint. validate_min_self_delegation env endpoint pub_key)

  unfoldable pub validate_validator_unjail_on_behalf_flags :
      (String → Bool) → UnjailConfig → Action (State X) Done
  validate_validator_unjail_on_behalf_flags changed cfg = do
    outcome (validate_flags changed ("validator-pubkey" ∷ []))
    pub_key ← outcome (env.codec.hex_decode cfg.validator_pub_key)
    check_validator cfg.base true pub_key
        (λ endpoint. validate_min_self_delegation env endpoint pub_key)

  unfoldable pub validate_update_validator_commission_flags :
      (String → Bool) → UpdateCommissionConfig → Action (State X) Done
  validate_update_validator_commission_flags changed cfg = do
    outcome (validate_flags changed ("commission-rate" ∷ []))
    pub_key ← own_pub_key cfg.base
    check_validator cfg.base true pub_key
        (λ endpoint. validate_new_commission_rate env endpoint cfg.commission_rate pub_key)
