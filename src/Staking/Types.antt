-- ===== src/Staking/Types.antt =====
-- client/x/evmstaking/types: withdrawals, parameters, the sweep index, and the parsed events of the
-- staking contract (contracts/bindings/iptokenstaking.go). Addresses of the execution layer and of
-- accounts are numbers of 20 bytes; Go's integers are natural numbers below their modulus.
use story.Base.{ℕ, String, List}

pub data WithdrawalType : Type 0 where
  unstake : WithdrawalType
  reward : WithdrawalType
  ubi : WithdrawalType

abbrev pub type_number : WithdrawalType → ℕ
type_number unstake = 0
type_number reward = 1
type_number ubi = 2

pub record Withdrawal : Type 0 where
  pub creation_height : ℕ
  pub execution_address : String
  pub amount : ℕ
  pub withdrawal_type : WithdrawalType
  pub validator_address : String

abbrev pub new_withdrawal : ℕ → String → ℕ → WithdrawalType → String → Withdrawal
new_withdrawal height addr amount kind val = record {
  creation_height = height;
  execution_address = addr;
  amount = amount;
  withdrawal_type = kind;
  validator_address = val;
}

-- `etypes.Withdrawal` of go-ethereum, as the payload of a block carries it
pub record ElWithdrawal : Type 0 where
  pub index : ℕ
  pub validator : ℕ
  pub address : ℕ
  pub amount : ℕ

pub record Params : Type 0 where
  pub max_withdrawal_per_block : ℕ
  pub max_sweep_per_block : ℕ
  pub min_partial_withdrawal_amount : ℕ
  pub ubi_withdraw_address : String

-- The zero value that `GetParams` returns where nothing is stored.
abbrev pub no_params : Params
no_params = record {
  max_withdrawal_per_block = 0;
  max_sweep_per_block = 0;
  min_partial_withdrawal_amount = 0;
  ubi_withdraw_address = "";
}

pub record SweepIndex : Type 0 where
  pub next_val_index : ℕ
  pub next_val_del_index : ℕ

pub record Deposit : Type 0 where
  pub delegator : ℕ
  pub validator_cmp_pubkey : List ℕ
  pub stake_amount : ℕ
  pub staking_period : ℕ
  pub delegation_id : ℕ
  pub operator_address : ℕ
  pub tx_hash : List ℕ

pub record CreateValidator : Type 0 where
  pub validator_cmp_pubkey : List ℕ
  pub moniker : String
  pub stake_amount : ℕ
  pub commission_rate : ℕ
  pub max_commission_rate : ℕ
  pub max_commission_change_rate : ℕ
  pub supports_unlocked : ℕ
  pub operator_address : ℕ
  pub tx_hash : List ℕ

pub record Redelegate : Type 0 where
  pub delegator : ℕ
  pub validator_src_cmp_pubkey : List ℕ
  pub validator_dst_cmp_pubkey : List ℕ
  pub delegation_id : ℕ
  pub operator_address : ℕ
  pub amount : ℕ
  pub tx_hash : List ℕ

pub record Withdraw : Type 0 where
  pub delegator : ℕ
  pub validator_cmp_pubkey : List ℕ
  pub stake_amount : ℕ
  pub delegation_id : ℕ
  pub operator_address : ℕ
  pub tx_hash : List ℕ

pub record Unjail : Type 0 where
  pub unjailer : ℕ
  pub validator_cmp_pubkey : List ℕ
  pub tx_hash : List ℕ

pub record UpdateValidatorCommission : Type 0 where
  pub validator_cmp_pubkey : List ℕ
  pub commission_rate : ℕ
  pub tx_hash : List ℕ

-- `SetWithdrawalAddress` and `SetRewardAddress`: the address is a word of 32 bytes.
pub record SetAddress : Type 0 where
  pub delegator : ℕ
  pub execution_address : ℕ
  pub tx_hash : List ℕ

pub record SetOperator : Type 0 where
  pub delegator : ℕ
  pub operator : ℕ
  pub tx_hash : List ℕ

pub record UnsetOperator : Type 0 where
  pub delegator : ℕ
  pub tx_hash : List ℕ
