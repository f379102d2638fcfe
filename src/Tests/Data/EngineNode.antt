-- ===== src/Tests/Data/EngineNode.antt =====
-- The engine of that node, and a payload that it accepts.
use story.Base.{ℕ, true, false, none, some, List, [], ◌∷◌, map}
use story.Action.{ok, err}
use story.Staking.Types.{ElWithdrawal}
use story.Engine.Types.{ExecutableData, ExecutionHead, MsgExecutionPayload, Plan, valid}
use story.Engine.State.{Env, State}
use story.Tests.Data.StakingNode.{World, done, staking_env, contract, staking_state}

-- The withdrawals that the two queues owe.
abbrev pub owed : List ElWithdrawal
owed =
    record { index = 0; validator = 0; address = 7; amount = 5 }
    ∷ record { index = 0; validator = 1; address = 7; amount = 6 }
    ∷ []

abbrev pub payload : ExecutableData
payload = record {
  parent_hash = 11;
  fee_recipient = 0;
  state_root = 0;
  receipts_root = 0;
  logs_bloom = [];
  random = 11;
  number = 41;
  gas_limit = 0;
  gas_used = 0;
  timestamp = 1500;
  extra_data = [];
  base_fee_per_gas = 300;
  block_hash = 12;
  transactions = some [];
  withdrawals = some (map some owed);
  blob_gas_used = some 0;
  excess_blob_gas = some 0;
  execution_witness = none;
}

abbrev base_fee : List ℕ
base_fee =
    0 ∷ 0 ∷ 0 ∷ 0 ∷ 0 ∷ 0 ∷ 0 ∷ 0 ∷ 0 ∷ 0 ∷ 0 ∷ 0 ∷ 0 ∷ 0 ∷ 0 ∷ 0 ∷ 0 ∷ 0 ∷ 0 ∷ 0 ∷ 0 ∷ 0 ∷ 0 ∷ 0
    ∷ 0 ∷ 0 ∷ 0 ∷ 0 ∷ 0 ∷ 0 ∷ 1 ∷ 44 ∷ []

abbrev pub message : MsgExecutionPayload
message = record {
  authority = "module";
  execution_payload = none;
  execution_payload_deneb = some (record {
    parent_hash = 11;
    fee_recipient = 0;
    state_root = 0;
    receipts_root = 0;
    logs_bloom = [];
    prev_randao = 11;
    block_number = 41;
    gas_limit = 0;
    gas_used = 0;
    timestamp = 1500;
    extra_data = [];
    base_fee_per_gas = base_fee;
    block_hash = 12;
    transactions = some [];
    withdrawals = owed;
    blob_gas_used = 0;
    excess_blob_gas = 0;
  });
  prev_payload_events = [];
}

-- Every plan has one encoding here.
abbrev pub plan : Plan
plan = record { name = "next"; height = 200; info = "" }

abbrev pub head : ExecutionHead
head = record { created_height = 99; block_height = 40; block_hash = 11; block_time = 1000 }

-- The execution client answers each call at the first attempt.
abbrev pub env : Env World
env = record {
  staking = staking_env;
  engine_cl = record {
    new_payload_v3 = λ _ _. done valid;
    forkchoice_updated_v3 = λ _ _. done (record { payload_status = valid; payload_id = some 5 });
    get_payload_v3 = λ _. done payload;
    filter_logs = λ _. done [];
    unknown_payload = λ _. false;
    ctx_err = λ _. none;
  };
  contracts = record {
    ip_token_staking = contract;
    software_upgrade_id = 21;
    cancel_upgrade_id = 22;
    ubi_percentage_set_id = 23;
    parse_software_upgrade = λ _. err [];
    parse_cancel_upgrade = λ _. err [];
    parse_ubi_percentage_set = λ _. err [];
  };
  modules = record {
    validate_basic = λ _. ok tt;
    schedule_upgrade_plan = λ _. done tt;
    clear_upgrade_plan = done tt;
    dump_upgrade_info_to_disk = λ _ _. done tt;
    set_ubi = λ _. done tt;
    next_proposer = λ _ _. ok 8;
  };
  codecs = record {
    marshal_plan = λ _. [];
    unmarshal_plan = λ _. ok plan;
    marshal_params = λ p. ok p.execution_block_hash;
    unmarshal_params = λ bz. ok (record { execution_block_hash = bz });
    unmarshal_payload = λ _. ok payload;
    decode_strictly = λ _. ok tt;
    marshal_payload = λ _. ok [];
    proto_equal = λ _ _. true;
    tx_size = λ _. ok 1;
  };
  module_address = "module";
  app_hash = 9;
  is_finalize_mode = true;
  validator_addr = 8;
  build_optimistic = true;
  has_cmt_api = true;
  max_block_bytes = some 100;
  max_block_size_bytes = 1000;
}

abbrev pub state : State World
state = record {
  staking = staking_state;
  head = some head;
  pending_upgrade = none;
  params = none;
  payload_id = 0;
  payload_height = 0;
  later_heads = [];
  is_exec_eng_syncing = false;
}
