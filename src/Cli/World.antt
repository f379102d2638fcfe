-- ===== src/Cli/World.antt =====
-- client/cmd/validator.go: the configurations of the commands, and what the commands call and does not
-- stand in this repository: the node's RPC, the API's HTTP server, geth's keys and ABI, and the texts of
-- numbers. A command's state is what lies outside and the transactions that it has sent, newest first.
use story.Base.{
  ℕ, ◌+◌, ◌-◌, ◌*◌, ◌^◌, zero, suc, Bool, true, false, String, Option, List, ltb, if◌then◌else◌,
  u64_mod,
}
use story.Action.{Outcome, Action, Done}
use story.Keys.{Curve}

-- `big.Int`
pub data ℤ : Type 0 where
  pos : ℕ → ℤ
  negsuc : ℕ → ℤ

-- `x.Cmp(n) < 0` for a number that is not negative
abbrev pub less_than : ℤ → ℕ → Bool
less_than (pos a) n = ltb a n
less_than (negsuc a) n = true

-- The order the other way round
abbrev pub exceeds : ℤ → ℕ → Bool
exceeds (pos a) n = ltb n a
exceeds (negsuc a) n = false

-- `int64(n)` of a `uint64`
abbrev pub int64 : ℕ → ℤ
int64 n = if ltb n (2 ^ 63) then pos n else negsuc (u64_mod - n - 1)

abbrev pub neg : ℕ → ℤ
neg zero = pos 0
neg (suc n) = negsuc n

abbrev pub times : ℤ → ℕ → ℤ
times (pos a) n = pos (a * n)
times (negsuc a) n = neg ((a + 1) * n)

infixl 50 ◌+ℤ◌
abbrev pub ◌+ℤ◌ : ℤ → ℤ → ℤ
pos a +ℤ pos b = pos (a + b)
pos a +ℤ negsuc b = if ltb b a then pos (a - b - 1) else negsuc (b - a)
negsuc a +ℤ pos b = if ltb a b then pos (b - a - 1) else negsuc (a - b)
negsuc a +ℤ negsuc b = negsuc (a + b + 1)

pub record BaseConfig : Type 0 where
  pub rpc : String
  pub private_key : String
  pub chain_id : ℤ
  pub contract_addr : ℕ
  -- `none` for the empty text
  pub story_api : Option String

pub record StakeConfig : Type 0 where
  pub base : BaseConfig
  pub delegator_address : String
  pub validator_pub_key : String
  pub stake_amount : String
  pub stake_period : ℕ

pub record CreateValidatorConfig : Type 0 where
  pub stake : StakeConfig
  pub moniker : String
  pub commission_rate : ℕ
  pub max_commission_rate : ℕ
  pub max_commission_change_rate : ℕ
  pub unlocked : Bool

pub record UnstakeConfig : Type 0 where
  pub stake : StakeConfig
  pub delegation_id : ℕ

pub record RedelegateConfig : Type 0 where
  pub base : BaseConfig
  pub delegator_address : String
  pub validator_src_pub_key : String
  pub validator_dst_pub_key : String
  pub delegation_id : ℕ
  pub stake_amount : String

pub record UnjailConfig : Type 0 where
  pub base : BaseConfig
  pub validator_pub_key : String

pub record UpdateCommissionConfig : Type 0 where
  pub base : BaseConfig
  pub commission_rate : ℕ

-- `operatorConfig`, `withdrawalConfig` and `rewardsConfig`: an address
pub record AddressConfig : Type 0 where
  pub base : BaseConfig
  pub address : String

-- An argument of a contract's method
pub data Arg : Type 0 where
  bytes : List ℕ → Arg
  address : ℕ → Arg
  text : String → Arg
  number : ℤ → Arg
  flag : Bool → Arg

pub record CallMsg : Type 0 where
  pub sender : ℕ
  pub to : ℕ
  pub gas_price : ℕ
  pub value : ℤ
  pub payload : List ℕ

-- `types.DynamicFeeTx`
pub record Tx : Type 0 where
  pub chain_id : ℤ
  pub nonce : ℕ
  pub gas_fee_cap : ℕ
  pub gas_tip_cap : ℕ
  pub gas : ℕ
  pub to : ℕ
  pub value : ℤ
  pub payload : List ℕ

pub record SignedTx : Type 0 where
  pub tx : Tx
  pub signature : List ℕ

pub record TxLog : Type 0 where
  pub topics : List ℕ
  pub payload : List ℕ

pub record Receipt : Type 0 where
  pub failed : Bool
  pub logs : List TxLog

-- The API's paths under `/staking/validators`
pub data Request : Type 0 where
  validator : String → Request
  self_delegation : String → Request

-- A response whose body may fail to be read
pub record Response : Type 0 where
  pub status_code : ℕ
  pub body : Outcome (List ℕ)

-- The rates of a commission are decimals of 18 places, and its time is in nanoseconds.
pub record Validator : Type 0 where
  pub operator_address : Option String
  pub rate : ℕ
  pub max_rate : ℕ
  pub max_change_rate : ℕ
  pub update_time : ℕ
  pub min_self_delegation : String

pub record ValidatorResponse : Type 0 where
  -- whether the text of the error holds `NotFound`
  pub not_found : Bool
  pub validator : Validator

pub record Node (X : Type 0) : Type 0 where
  pub load_priv_key : Action X (Option String)
  pub dial : String → Action X Done
  pub call_contract : ℕ → List ℕ → Action X (List ℕ)
  pub pending_nonce_at : ℕ → Action X ℕ
  pub suggest_gas_price : Action X ℕ
  pub estimate_gas : CallMsg → Action X ℕ
  pub balance_at : ℕ → Action X ℕ
  pub send_transaction : SignedTx → Action X Done
  pub wait_mined : SignedTx → Action X Receipt
  pub http_get : String → Request → Action X Response
  pub now : X → ℕ

pub record Codec (K : Type 0) : Type 0 where
  pub curve : Curve K
  pub hex_to_ecdsa : String → Outcome K
  pub hex_decode : String → Outcome (List ℕ)
  pub hex_to_address : String → ℕ
  pub address_text : ℕ → String
  -- `SetString` of `big.Int` at base 10
  pub set_string : String → Option ℤ
  -- the first four bytes of the hash of a getter's signature
  pub selector : String → List ℕ
  -- the contract's ABI
  pub abi : Outcome Done
  pub pack : String → List Arg → Outcome (List ℕ)
  pub unpack_fee : List ℕ → Outcome ℕ
  pub deposit_id : ℕ
  pub unpack_delegation_id : List ℕ → Outcome ℕ
  pub sign_tx : Tx → K → Outcome (List ℕ)
  pub unmarshal_validator : List ℕ → Outcome ValidatorResponse
  -- the amount of a self-delegation
  pub unmarshal_self_delegation : List ℕ → Outcome String
  -- `predeploys.IPTokenStaking`
  pub staking_contract : ℕ

pub record Env (X K : Type 0) : Type 0 where
  pub node : Node X
  pub codec : Codec K

pub record State (X : Type 0) : Type 0 where
  pub ext : X
  pub sent : List SignedTx

module _ {X A : Type 0} where
  abbrev pub call : Action X A → Action (State X) A
  call m s = let (r, x) = m s.ext in (r, record s { ext = x })
