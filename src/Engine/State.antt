-- ===== src/Engine/State.antt =====
-- client/x/evmengine/keeper/keeper.go: the module's stores and its memory, and what it calls and does
-- not implement: the engine API of the execution client, the contracts' parsers, codecs, and the
-- Cosmos keepers. The state `X` is that of everything outside both modules, shared with x/evmstaking.
use story.Base.{ℕ, Bool, String, Option, none, some, List, [], ◌∷◌}
use story.Errors.{Error, cause, not_found}
use story.Action.{Outcome, ok, err, Action, Done}
use story.Evm.{EvmEvent, EthLog}
use story.Staking.External.{Env as StakingEnv}
use story.Staking.State.{State as StakingState}
use story.Staking.Dispatch.{Contract}
use story.Engine.Types.{
  ExecutableData, MsgExecutionPayload, ExecutionHead, Status, ForkchoiceState, PayloadAttributes,
  ForkChoiceResponse, Plan, SoftwareUpgrade, CancelUpgrade, UbiPercentageSet, Params,
}

-- A log as the execution client returns it
pub record Log : Type 0 where
  pub address : List ℕ
  pub topics : List (List ℕ)
  pub log_data : List ℕ
  pub tx_hash : List ℕ

pub record EngineClient (X : Type 0) : Type 0 where
  pub new_payload_v3 : ExecutableData → ℕ → Action X Status
  pub forkchoice_updated_v3 :
      ForkchoiceState → Option PayloadAttributes → Action X ForkChoiceResponse
  pub get_payload_v3 : ℕ → Action X ExecutableData
  pub filter_logs : ℕ → Action X (List Log)
  -- whether an error's text is that of an unknown payload
  pub unknown_payload : Error → Bool
  -- `ctx.Err()` after a call
  pub ctx_err : X → Option Error

pub record Contracts : Type 0 where
  pub ip_token_staking : Contract
  pub software_upgrade_id : ℕ
  pub cancel_upgrade_id : ℕ
  pub ubi_percentage_set_id : ℕ
  pub parse_software_upgrade : EthLog → Outcome SoftwareUpgrade
  pub parse_cancel_upgrade : EthLog → Outcome CancelUpgrade
  pub parse_ubi_percentage_set : EthLog → Outcome UbiPercentageSet

pub record Modules (X : Type 0) : Type 0 where
  -- the upgrade module
  pub validate_basic : Plan → Outcome Done
  pub schedule_upgrade_plan : Plan → Action X Done
  pub clear_upgrade_plan : Action X Done
  pub dump_upgrade_info_to_disk : ℕ → Plan → Action X Done
  -- `SetUbi` at a decimal with 4 places
  pub set_ubi : ℕ → Action X Done
  -- the address of the next proposer in the validator set of a height
  pub next_proposer : ℕ → X → Outcome ℕ

pub record Codecs : Type 0 where
  pub marshal_plan : Plan → List ℕ
  pub unmarshal_plan : List ℕ → Outcome Plan
  pub marshal_params : Params → Outcome (List ℕ)
  pub unmarshal_params : List ℕ → Outcome Params
  -- `json.Unmarshal` into `engine.ExecutableData`
  pub unmarshal_payload : List ℕ → Outcome ExecutableData
  -- the decoder of `ValidateExecPayload`, which takes no unknown field
  pub decode_strictly : List ℕ → Outcome Done
  pub marshal_payload : ExecutableData → Outcome (List ℕ)
  -- `proto.Equal`
  pub proto_equal : EvmEvent → EvmEvent → Bool
  -- the transaction of one message, encoded: its number of bytes
  pub tx_size : MsgExecutionPayload → Outcome ℕ

pub record Env (X : Type 0) : Type 0 where
  pub staking : StakingEnv X
  pub engine_cl : EngineClient X
  pub contracts : Contracts
  pub modules : Modules X
  pub codecs : Codecs
  -- the bech32 address of the module's account
  pub module_address : String
  pub app_hash : ℕ
  pub is_finalize_mode : Bool
  pub validator_addr : ℕ
  pub build_optimistic : Bool
  pub has_cmt_api : Bool
  -- the block's consensus parameter, `none` for -1
  pub max_block_bytes : Option ℕ
  -- `MaxBlockSizeBytes` of CometBFT
  pub max_block_size_bytes : ℕ

pub record State (X : Type 0) : Type 0 where
  pub staking : StakingState X
  pub head : Option ExecutionHead
  -- the rows of the table after the head's
  pub later_heads : List ExecutionHead
  -- the store's value at `PendingUpgradeKey`
  pub pending_upgrade : Option (List ℕ)
  -- the store's value at `ParamsKey`
  pub params : Option (List ℕ)
  pub payload_id : ℕ
  pub payload_height : ℕ
  pub is_exec_eng_syncing : Bool

module _ {X A : Type 0} where
  -- A call of x/evmstaking.
  abbrev pub on_staking : Action (StakingState X) A → Action (State X) A
  on_staking m s = let (r, t) = m s.staking in (r, record s { staking = t })

  -- A call outside both modules
  abbrev pub call : Action X A → Action (State X) A
  call m s =
      let (r, x) = m s.staking.ext in (r, record s { staking = record (s.staking) { ext = x } })

-- db.go: the singleton row of the execution head.
module _ {X : Type 0} where
  unfoldable pub get_execution_head : State X → Outcome ExecutionHead
  get_execution_head s = elim s.head [ none ↦ err (cause not_found ∷ []) | some h ↦ ok h ]

  -- `Update` of a row that is not there fails.
  unfoldable pub update_execution_head : ℕ → ExecutableData → Action (State X) Done
  update_execution_head block_height payload s = elim s.head [
    | none ↦ (err (cause not_found ∷ []), s)
    | some _ ↦ (
      ok tt,
      record s {
        head = some (record {
          created_height = block_height;
          block_height = payload.number;
          block_hash = payload.block_hash;
          block_time = payload.timestamp;
        });
      },
    )
  ]

  -- A table that counts from 1 has no row yet; on any other the row is inserted all the same, under an
  -- identifier that is not the head's.
  unfoldable pub insert_genesis_head : ℕ → Action (State X) Done
  insert_genesis_head block_hash s = elim s.head [
    | some _ ↦ (
      err [],
      record s {
        later_heads =
            record { created_height = 0; block_height = 0; block_hash = block_hash; block_time = 0 }
            ∷ s.later_heads;
      },
    )
    | none ↦ (
      ok tt,
      record s {
        head = some (record {
          created_height = 0;
          block_height = 0;
          block_hash = block_hash;
          block_time = 0;
        });
      },
    )
  ]
