-- ===== src/Cli/Commands.antt =====
-- client/cmd/validator.go: what each command does once its flags are valid. What is printed is left out.
use story.Base.{ℕ, String, none, some, List, [], ◌∷◌, get_elem?, ◌==◌, if◌then◌else◌}
use story.Action.{Outcome, ok, err, panic, Action, Done, pure, outcome, ◌>>=◌, ◌>>◌}
use story.Cli.World.{
  ℤ, pos, Arg, bytes, address, text, number, flag, BaseConfig, StakeConfig, CreateValidatorConfig,
  UnstakeConfig, RedelegateConfig, UnjailConfig, UpdateCommissionConfig, AddressConfig, TxLog, Env,
  State, call,
}
use story.Cli.Transaction.{prepare_and_read_contract, get_uint256, prepare_and_execute_transaction}
use story.Cli.Queries.{amount_of}
use story.Cli.Validate.{own_pub_key}

module _ {X K : Type 0} (env : Env X K) where
  -- The first log whose first topic is that of a deposit; a log without topics is an index error.
  unfoldable pub extract_delegation_id_from_stake : List TxLog → Outcome ℕ
  extract_delegation_id_from_stake [] = err []
  extract_delegation_id_from_stake (l ∷ logs) =
      let rest = extract_delegation_id_from_stake logs in
      elim (get_elem? l.topics 0) [
        | none ↦ panic
        | some topic ↦
            if topic == env.codec.deposit_id then env.codec.unpack_delegation_id l.payload else rest
      ]

  -- The fee of the contract, read by the ABI
  unfoldable pub read_fee : BaseConfig → Action (State X) ℕ
  read_fee cfg = do
    result ← prepare_and_read_contract env cfg "fee"
    outcome (env.codec.unpack_fee result)

  -- A transaction whose receipt is not used
  abbrev pub execute : BaseConfig → String → ℤ → List Arg → Action (State X) Done
  execute cfg method value args = do
    receipt ← prepare_and_execute_transaction env cfg method value args
    pure tt

  -- A transaction whose receipt has the new delegation
  abbrev pub execute_stake : BaseConfig → String → ℤ → List Arg → Action (State X) Done
  execute_stake cfg method value args = do
    receipt ← prepare_and_execute_transaction env cfg method value args
    id ← outcome (extract_delegation_id_from_stake receipt.logs)
    pure tt

  unfoldable pub create_validator : CreateValidatorConfig → Action (State X) Done
  create_validator cfg = do
    pub_key ← own_pub_key env cfg.stake.base
    amount ← outcome (amount_of env cfg.stake.stake_amount)
    execute cfg.stake.base "createValidator" amount (
        bytes pub_key
        ∷ text cfg.moniker
        ∷ number (pos cfg.commission_rate)
        ∷ number (pos cfg.max_commission_rate)
        ∷ number (pos cfg.max_commission_change_rate)
        ∷ flag cfg.unlocked
        ∷ bytes []
        ∷ [])

  -- A method that takes an address, at the fee
  abbrev pub set_address : String → AddressConfig → Action (State X) Done
  set_address method cfg = do
    fee ← get_uint256 env cfg.base "fee"
    execute cfg.base method (pos fee) (address (env.codec.hex_to_address cfg.address) ∷ [])

  unfoldable pub set_withdrawal_address : AddressConfig → Action (State X) Done
  set_withdrawal_address = set_address "setWithdrawalAddress"

  unfoldable pub set_rewards_address : AddressConfig → Action (State X) Done
  set_rewards_address = set_address "setRewardsAddress"

  unfoldable pub set_operator : AddressConfig → Action (State X) Done
  set_operator = set_address "setOperator"

  unfoldable pub unset_operator : AddressConfig → Action (State X) Done
  unset_operator cfg = do fee ← read_fee cfg.base; execute cfg.base "unsetOperator" (pos fee) []

  unfoldable pub stake : StakeConfig → Action (State X) Done
  stake cfg = do
    pub_key ← outcome (env.codec.hex_decode cfg.validator_pub_key)
    amount ← outcome (amount_of env cfg.stake_amount)
    execute_stake cfg.base "stake" amount
        (bytes pub_key ∷ number (pos cfg.stake_period) ∷ bytes [] ∷ [])

  unfoldable pub stake_on_behalf : StakeConfig → Action (State X) Done
  stake_on_behalf cfg = do
    pub_key ← outcome (env.codec.hex_decode cfg.validator_pub_key)
    amount ← outcome (amount_of env cfg.stake_amount)
    execute_stake cfg.base "stakeOnBehalf" amount (
        address (env.codec.hex_to_address cfg.delegator_address)
        ∷ bytes pub_key
        ∷ number (pos cfg.stake_period)
        ∷ bytes []
        ∷ [])

  unfoldable pub unstake : UnstakeConfig → Action (State X) Done
  unstake cfg = do
    pub_key ← outcome (env.codec.hex_decode cfg.stake.validator_pub_key)
    amount ← outcome (amount_of env cfg.stake.stake_amount)
    fee ← read_fee cfg.stake.base
    execute cfg.stake.base "unstake" (pos fee)
        (bytes pub_key ∷ number (pos cfg.delegation_id) ∷ number amount ∷ bytes [] ∷ [])

  unfoldable pub unstake_on_behalf : UnstakeConfig → Action (State X) Done
  unstake_on_behalf cfg = do
    pub_key ← outcome (env.codec.hex_decode cfg.stake.validator_pub_key)
    amount ← outcome (amount_of env cfg.stake.stake_amount)
    fee ← read_fee cfg.stake.base
    execute cfg.stake.base "unstakeOnBehalf" (pos fee) (
        address (env.codec.hex_to_address cfg.stake.delegator_address)
        ∷ bytes pub_key
        ∷ number (pos cfg.delegation_id)
        ∷ number amount
        ∷ bytes []
        ∷ [])

  unfoldable pub redelegate : RedelegateConfig → Action (State X) Done
  redelegate cfg = do
    src ← outcome (env.codec.hex_decode cfg.validator_src_pub_key)
    dst ← outcome (env.codec.hex_decode cfg.validator_dst_pub_key)
    amount ← outcome (amount_of env cfg.stake_amount)
    fee ← read_fee cfg.base
    execute cfg.base "redelegate" (pos fee)
        (bytes src ∷ bytes dst ∷ number (pos cfg.delegation_id) ∷ number amount ∷ [])

  unfoldable pub redelegate_on_behalf : RedelegateConfig → Action (State X) Done
  redelegate_on_behalf cfg = do
    src ← outcome (env.codec.hex_decode cfg.validator_src_pub_key)
    dst ← outcome (env.codec.hex_decode cfg.validator_dst_pub_key)
    amount ← outcome (amount_of env cfg.stake_amount)
    fee ← read_fee cfg.base
    execute cfg.base "redelegateOnBehalf" (pos fee) (
        address (env.codec.hex_to_address cfg.delegator_address)
        ∷ bytes src
        ∷ bytes dst
        ∷ number (pos cfg.delegation_id)
        ∷ number amount
        ∷ [])

  unfoldable pub unjail : UnjailConfig → Action (State X) Done
  unjail cfg = do
    pub_key ← own_pub_key env cfg.base
    fee ← read_fee cfg.base
    execute cfg.base "unjail" (pos fee) (bytes pub_key ∷ bytes [] ∷ [])

  unfoldable pub unjail_on_behalf : UnjailConfig → Action (State X) Done
  unjail_on_behalf cfg = do
    pub_key ← outcome (env.codec.hex_decode cfg.validator_pub_key)
    fee ← read_fee cfg.base
    execute cfg.base "unjailOnBehalf" (pos fee) (bytes pub_key ∷ bytes [] ∷ [])

  unfoldable pub update_validator_commission : UpdateCommissionConfig → Action (State X) Done
  update_validator_commission cfg = do
    pub_key ← own_pub_key env cfg.base
    fee ← read_fee cfg.base
    execute cfg.base "updateValidatorCommission" (pos fee)
        (bytes pub_key ∷ number (pos cfg.commission_rate) ∷ [])

  -- The checks on a private key before any command, and the contract of the network
  unfoldable pub initialize_base_config : BaseConfig → Action (State X) BaseConfig
  initialize_base_config cfg = do
    loaded ← call env.node.load_priv_key
    private_key ← outcome (elim loaded [ none ↦ err [] | some k ↦ ok k ])
    outcome
        (elim (env.codec.hex_to_ecdsa private_key) [ ok _ ↦ ok tt | err e ↦ err e | panic ↦ panic ])
    outcome env.codec.abi
    pure (record cfg { private_key = private_key; contract_addr = env.codec.staking_contract })
