-- ===== src/Cli/Intends.antt =====
-- Which transaction each command is for.
use story.Base.{ℕ, ◌≡◌, String, List, [], ◌∷◌}
use story.Action.{ok}
use story.Cli.World.{
  ℤ, pos, Arg, bytes, address, text, number, flag, BaseConfig, StakeConfig, CreateValidatorConfig,
  UnstakeConfig, RedelegateConfig, UnjailConfig, UpdateCommissionConfig, AddressConfig, SignedTx,
  Env,
}
use story.Engine.Convert.{set_bytes}
use story.Cli.KeyUtils.{priv_key_to_cmp_pub_key}
use story.Cli.Queries.{amount_of}
use story.Cli.Run.{
  Command, create, set_operator, unset_operator, set_withdrawal_address, set_rewards_address, stake,
  stake_on_behalf, unstake, unstake_on_behalf, redelegate, redelegate_on_behalf, unjail,
  unjail_on_behalf, update_commission,
}
use story.Cli.Sends.{Of}

module _ {X K : Type 0} (env : Env X K) where
  -- The public key of the configuration's private key
  pub record OwnKey (cfg : BaseConfig) (key : List ℕ) : Type 0 where
    pub secret : List ℕ
    pub secret_eq : env.codec.hex_decode cfg.private_key ≡ ok secret
    pub key_eq : priv_key_to_cmp_pub_key env.codec.curve secret ≡ ok key

  abbrev Decodes : String → List ℕ → Type 0
  Decodes s key = env.codec.hex_decode s ≡ ok key

  abbrev Amount : String → ℤ → Type 0
  Amount s amount = amount_of env s ≡ ok amount

  -- The contract of the configuration has answered these bytes for its fee, in some state.
  pub record FeeBytes (cfg : BaseConfig) (result : List ℕ) : Type 0 where
    pub node_state : X
    pub answered :
        (env.node.call_contract cfg.contract_addr (env.codec.selector "fee") node_state).0
        ≡ ok result

  -- A fee as the ABI reads it from the answer, and as the number that the answer spells
  pub record AbiFee (cfg : BaseConfig) (fee : ℕ) : Type 0 where
    pub result : List ℕ
    pub fee_bytes : FeeBytes cfg result
    pub fee_eq : env.codec.unpack_fee result ≡ ok fee

  pub record WordFee (cfg : BaseConfig) (fee : ℕ) : Type 0 where
    pub result : List ℕ
    pub fee_bytes : FeeBytes cfg result
    pub fee_eq : set_bytes 0 result ≡ fee

  abbrev hex : String → Arg
  hex s = address (env.codec.hex_to_address s)

  -- The configuration, the method, the value and the arguments of a command: a stake and a new
  -- validator carry the amount, and what else is asked for carries the fee that the contract has
  -- answered, with the amount among the arguments.
  pub data Asks : Command → BaseConfig → String → ℤ → List Arg → Type 0 where
    creates :
        (cfg : CreateValidatorConfig) (key : List ℕ) (amount : ℤ)
        → OwnKey cfg.stake.base key
        → Amount cfg.stake.stake_amount amount
        → Asks (create cfg) cfg.stake.base "createValidator" amount (
            bytes key
            ∷ text cfg.moniker
            ∷ number (pos cfg.commission_rate)
            ∷ number (pos cfg.max_commission_rate)
            ∷ number (pos cfg.max_commission_change_rate)
            ∷ flag cfg.unlocked
            ∷ bytes []
            ∷ [])
    sets_operator :
        (cfg : AddressConfig) (fee : ℕ)
        → WordFee cfg.base fee
        → Asks (set_operator cfg) cfg.base "setOperator" (pos fee) (hex cfg.address ∷ [])
    unsets_operator :
        (cfg : AddressConfig) (fee : ℕ)
        → AbiFee cfg.base fee
        → Asks (unset_operator cfg) cfg.base "unsetOperator" (pos fee) []
    sets_withdrawal_address :
        (cfg : AddressConfig) (fee : ℕ)
        → WordFee cfg.base fee
        → Asks
            (set_withdrawal_address cfg)
            cfg.base
            "setWithdrawalAddress"
            (pos fee)
            (hex cfg.address ∷ [])
    sets_rewards_address :
        (cfg : AddressConfig) (fee : ℕ)
        → WordFee cfg.base fee
        → Asks
            (set_rewards_address cfg)
            cfg.base
            "setRewardsAddress"
            (pos fee)
            (hex cfg.address ∷ [])
    stakes :
        (cfg : StakeConfig) (key : List ℕ) (amount : ℤ)
        → Decodes cfg.validator_pub_key key
        → Amount cfg.stake_amount amount
        → Asks
            (stake cfg)
            cfg.base
            "stake"
            amount
            (bytes key ∷ number (pos cfg.stake_period) ∷ bytes [] ∷ [])
    stakes_on_behalf :
        (cfg : StakeConfig) (key : List ℕ) (amount : ℤ)
        → Decodes cfg.validator_pub_key key
        → Amount cfg.stake_amount amount
        → Asks
            (stake_on_behalf cfg)
            cfg.base
            "stakeOnBehalf"
            amount
            (hex cfg.delegator_address ∷ bytes key ∷ number (pos cfg.stake_period) ∷ bytes [] ∷ [])
    unstakes :
        (cfg : UnstakeConfig) (key : List ℕ) (amount : ℤ) (fee : ℕ)
        → Decodes cfg.stake.validator_pub_key key
        → Amount cfg.stake.stake_amount amount
        → AbiFee cfg.stake.base fee
        → Asks
            (unstake cfg)
            cfg.stake.base
            "unstake"
            (pos fee)
            (bytes key ∷ number (pos cfg.delegation_id) ∷ number amount ∷ bytes [] ∷ [])
    unstakes_on_behalf :
        (cfg : UnstakeConfig) (key : List ℕ) (amount : ℤ) (fee : ℕ)
        → Decodes cfg.stake.validator_pub_key key
        → Amount cfg.stake.stake_amount amount
        → AbiFee cfg.stake.base fee
        → Asks (unstake_on_behalf cfg) cfg.stake.base "unstakeOnBehalf" (pos fee) (
            hex cfg.stake.delegator_address
            ∷ bytes key
            ∷ number (pos cfg.delegation_id)
            ∷ number amount
            ∷ bytes []
            ∷ [])
    redelegates :
        (cfg : RedelegateConfig) (src dst : List ℕ) (amount : ℤ) (fee : ℕ)
        → Decodes cfg.validator_src_pub_key src
        → Decodes cfg.validator_dst_pub_key dst
        → Amount cfg.stake_amount amount
        → AbiFee cfg.base fee
        → Asks
            (redelegate cfg)
            cfg.base
            "redelegate"
            (pos fee)
            (bytes src ∷ bytes dst ∷ number (pos cfg.delegation_id) ∷ number amount ∷ [])
    redelegates_on_behalf :
        (cfg : RedelegateConfig) (src dst : List ℕ) (amount : ℤ) (fee : ℕ)
        → Decodes cfg.validator_src_pub_key src
        → Decodes cfg.validator_dst_pub_key dst
        → Amount cfg.stake_amount amount
        → AbiFee cfg.base fee
        → Asks (redelegate_on_behalf cfg) cfg.base "redelegateOnBehalf" (pos fee) (
            hex cfg.delegator_address
            ∷ bytes src
            ∷ bytes dst
            ∷ number (pos cfg.delegation_id)
            ∷ number amount
            ∷ [])
    unjails :
        (cfg : UnjailConfig) (key : List ℕ) (fee : ℕ)
        → OwnKey cfg.base key
        → AbiFee cfg.base fee
        → Asks (unjail cfg) cfg.base "unjail" (pos fee) (bytes key ∷ bytes [] ∷ [])
    unjails_on_behalf :
        (cfg : UnjailConfig) (key : List ℕ) (fee : ℕ)
        → Decodes cfg.validator_pub_key key
        → AbiFee cfg.base fee
        → Asks
            (unjail_on_behalf cfg)
            cfg.base
            "unjailOnBehalf"
            (pos fee)
            (bytes key ∷ bytes [] ∷ [])
    updates_commission :
        (cfg : UpdateCommissionConfig) (key : List ℕ) (fee : ℕ)
        → OwnKey cfg.base key
        → AbiFee cfg.base fee
        → Asks
            (update_commission cfg)
            cfg.base
            "updateValidatorCommission"
            (pos fee)
            (bytes key ∷ number (pos cfg.commission_rate) ∷ [])

  -- A command's transaction: to the contract of the configuration, with the command's method, value and
  -- arguments, signed with the configuration's key.
  pub record Intends (c : Command) (t : SignedTx) : Type 0 where
    pub base : BaseConfig
    pub method : String
    pub value : ℤ
    pub args : List Arg
    pub asks : Asks c base method value args
    pub payload : List ℕ
    pub packed : env.codec.pack method args ≡ ok payload
    pub of : Of env base base.contract_addr value payload t
