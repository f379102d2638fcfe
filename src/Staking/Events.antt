-- ===== src/Staking/Events.antt =====
-- client/x/evmstaking/types/events.go and client/x/evmengine/types/events.go: the events that the
-- handlers emit, their keys, and values before they are formatted as text.
use story.Base.{ℕ, String, List}

pub data EventType : Type 0 where
  update_validator_commission_failure : EventType
  set_withdrawal_address_failure : EventType
  set_reward_address_failure : EventType
  set_operator_failure : EventType
  unset_operator_failure : EventType
  create_validator_failure : EventType
  delegate_failure : EventType
  redelegate_failure : EventType
  undelegate_failure : EventType
  unjail_failure : EventType
  withdraw : EventType
  update_validator_commission_success : EventType
  set_withdrawal_address_success : EventType
  set_reward_address_success : EventType
  set_operator_success : EventType
  unset_operator_success : EventType
  create_validator_success : EventType
  delegate_success : EventType
  redelegate_success : EventType
  undelegate_success : EventType
  unjail_success : EventType
  upgrade_failure : EventType
  update_ubi_failure : EventType
  cancel_upgrade_failure : EventType
  upgrade_success : EventType
  update_ubi_success : EventType
  cancel_upgrade_success : EventType

pub data Key : Type 0 where
  error_code : Key
  block_height : Key
  tx_hash : Key
  delegator_addr : Key
  validator_cmp_pubkey : Key
  src_validator_cmp_pubkey : Key
  dst_validator_cmp_pubkey : Key
  delegation_id : Key
  staking_period : Key
  amount : Key
  sender_address : Key
  withdrawal_address : Key
  reward_address : Key
  operator_address : Key
  moniker : Key
  commission_rate : Key
  max_commission_rate : Key
  max_commission_change_rate : Key
  token_type : Key
  creation_height : Key
  withdraw_execution_address : Key
  withdrawal_type : Key
  withdrawal_validator_address : Key
  upgrade_name : Key
  upgrade_height : Key
  upgrade_info : Key
  ubi_percentage : Key

-- An attribute's value: a number in decimal, bytes in hexadecimal, an address, or a text.
pub data Value : Type 0 where
  num : ℕ → Value
  bytes : List ℕ → Value
  address : ℕ → Value
  text : String → Value

abbrev pub Attribute : Type 0
Attribute = Key × Value

pub record Event : Type 0 where
  pub type : EventType
  pub attributes : List Attribute
