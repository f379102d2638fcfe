-- ===== src/Engine/Types.antt =====
-- The data of client/x/evmengine: `engine.ExecutableData` and the statuses of go-ethereum's engine
-- API, the messages of the module (types/tx.pb.go), and the execution head (keeper/evmengine.pb.go).
-- Hashes and addresses are numbers of 32 and 20 bytes; `none` is Go's nil pointer or nil slice.
use story.Base.{ℕ, String, Option, List}
use story.Evm.{EvmEvent}
use story.Staking.Types.{ElWithdrawal}

pub record ExecutableData : Type 0 where
  pub parent_hash : ℕ
  pub fee_recipient : ℕ
  pub state_root : ℕ
  pub receipts_root : ℕ
  pub logs_bloom : List ℕ
  pub random : ℕ
  pub number : ℕ
  pub gas_limit : ℕ
  pub gas_used : ℕ
  pub timestamp : ℕ
  pub extra_data : List ℕ
  pub base_fee_per_gas : ℕ
  pub block_hash : ℕ
  pub transactions : Option (List (List ℕ))
  pub withdrawals : Option (List (Option ElWithdrawal))
  pub blob_gas_used : Option ℕ
  pub excess_blob_gas : Option ℕ
  pub execution_witness : Option (List ℕ)

pub record ExecutionPayloadDeneb : Type 0 where
  pub parent_hash : ℕ
  pub fee_recipient : ℕ
  pub state_root : ℕ
  pub receipts_root : ℕ
  pub logs_bloom : List ℕ
  pub prev_randao : ℕ
  pub block_number : ℕ
  pub gas_limit : ℕ
  pub gas_used : ℕ
  pub timestamp : ℕ
  pub extra_data : List ℕ
  pub base_fee_per_gas : List ℕ
  pub block_hash : ℕ
  pub transactions : Option (List (List ℕ))
  pub withdrawals : List ElWithdrawal
  pub blob_gas_used : ℕ
  pub excess_blob_gas : ℕ

pub record MsgExecutionPayload : Type 0 where
  pub authority : String
  pub execution_payload : Option (List ℕ)
  pub execution_payload_deneb : Option ExecutionPayloadDeneb
  pub prev_payload_events : List EvmEvent

pub record ExecutionHead : Type 0 where
  pub created_height : ℕ
  pub block_height : ℕ
  pub block_hash : ℕ
  pub block_time : ℕ

-- The parameters of the module: the hash of the genesis block of the execution layer, as bytes.
pub record Params : Type 0 where
  pub execution_block_hash : List ℕ

pub record GenesisState : Type 0 where
  pub params : Params

pub data Status : Type 0 where
  valid : Status
  invalid : Status
  syncing : Status
  accepted : Status

pub record ForkchoiceState : Type 0 where
  pub head_block_hash : ℕ
  pub safe_block_hash : ℕ
  pub finalized_block_hash : ℕ

pub record PayloadAttributes : Type 0 where
  pub timestamp : ℕ
  pub random : ℕ
  pub suggested_fee_recipient : ℕ
  pub withdrawals : List ElWithdrawal
  pub beacon_root : ℕ

pub record ForkChoiceResponse : Type 0 where
  pub payload_status : Status
  pub payload_id : Option ℕ

-- A plan of the upgrade module. The height is an `int64`, of a plan or an event that is not negative.
pub record Plan : Type 0 where
  pub name : String
  pub height : ℕ
  pub info : String

pub record SoftwareUpgrade : Type 0 where
  pub name : String
  pub height : ℕ
  pub info : String
  pub tx_hash : List ℕ

pub record CancelUpgrade : Type 0 where
  pub tx_hash : List ℕ

pub record UbiPercentageSet : Type 0 where
  pub percentage : ℕ
  pub tx_hash : List ℕ
