-- ===== src/Tests/Data/StakingNode.antt =====
-- The staking module of a node at height 100 of the test network.
use story.Base.{ℕ, List, true, false, none, some, [], ◌∷◌, ◌==◌, if◌then◌else◌, refl, arith}
use story.Action.{Outcome, ok, err, Action}
use story.Queue.{Queue}
use story.Queue.Represents.{Represents}
use story.Staking.Types.{Withdrawal, Params, SweepIndex, new_withdrawal, unstake, reward}
use story.Staking.External.{Env as StakingEnv, Validator, Delegation}
use story.Staking.State.{State as StakingState}
use story.Staking.Dispatch.{Contract}

abbrev pub World : Type 0
World = Unit {0}

abbrev pub done : {A : Type 0} → A → Action World A
done a x = (ok a, x)

abbrev pub validator : Validator
validator = record {
  operator = "val";
  jailed = false;
  support_token_type = 0;
  description = "";
  min_self_delegation = 1;
  consensus_pubkey = none;
}

abbrev pub delegation : Delegation
delegation = record { delegator_address = "del"; validator_address = "val" }

abbrev pub params : Params
params = record {
  max_withdrawal_per_block = 4;
  max_sweep_per_block = 16;
  min_partial_withdrawal_amount = 10;
  ubi_withdraw_address = "0xcc";
}

-- The three numbers of parameters with that address
abbrev decoded : List ℕ → Outcome Params
decoded (max ∷ sweep ∷ least ∷ []) = ok (record {
  max_withdrawal_per_block = max;
  max_sweep_per_block = sweep;
  min_partial_withdrawal_amount = least;
  ubi_withdraw_address = "0xcc";
})
decoded _ = err []

abbrev decoded_index : List ℕ → Outcome SweepIndex
decoded_index (val ∷ del ∷ []) = ok (record { next_val_index = val; next_val_del_index = del })
decoded_index _ = err []

abbrev pub staking_env : StakingEnv World
staking_env = record {
  codec = record {
    hex_to_address = λ _. 7;
    bytes_to_address = λ n. n;
    address_string = λ _. "addr";
    acc_string = λ _. "acc";
    val_string = λ _. "val";
    acc_from_bech32 = λ _. ok 1;
    val_from_bech32 = λ _. ok 2;
    validator_codec = λ _. ok 2;
    hex_encode = λ _. "0x";
    pubkey_to_address = λ _. ok 3;
    decimal = λ _. "0";
    marshal_params = λ p.
        ok (
          p.max_withdrawal_per_block ∷ p.max_sweep_per_block ∷ p.min_partial_withdrawal_amount
          ∷ []);
    unmarshal_params = decoded;
    marshal_sweep_index = λ i. ok (i.next_val_index ∷ i.next_val_del_index ∷ []);
    unmarshal_sweep_index = decoded_index;
    uint64 = λ n. ok n;
    coin_of_int64 = λ n. ok n;
  };
  keepers = record {
    has_account = λ _ _. true;
    create_account = λ _. done tt;
    mint_coins = λ _. done tt;
    burn_coins = λ _. done tt;
    send_module_to_account = λ _ _. done tt;
    send_account_to_module = λ _ _. done tt;
    spendable_coin = λ _ _. 0;
    get_validator = λ _ _. ok validator;
    get_all_validators = λ _. ok (validator ∷ []);
    get_delegation = λ _ _ _. ok delegation;
    get_validator_delegations = λ _ _. ok (delegation ∷ []);
    min_delegation = λ _. ok 1;
    flexible_period_type = λ _. ok 0;
    locked_token_type = λ _. ok 0;
    singularity_height = λ _. ok 1000;
    flexible_period_delegation_id = "0";
    end_blocker_with_unbonded_entries = done ([], []);
    delegate = λ _ _ _ _ _. done tt;
    undelegate = λ _ _ _ _. done 0;
    begin_redelegate = λ _ _ _ _ _. done 0;
    new_create_validator = λ m. ok m;
    create_validator = λ _. done tt;
    edit_validator = λ _ _ _ _. done tt;
    unjail = λ _. done tt;
    increment_validator_period = λ _. done 0;
    calculate_delegation_rewards = λ _ _ _. done 0;
    accumulated_commission = λ _ _. ok 0;
    withdraw_delegation_rewards = λ _ _. done 0;
    withdraw_validator_commission = λ _. done 0;
    ubi_balance = λ _. ok 0;
    withdraw_ubi_to_module = done 0;
  };
  context = record { block_height = 100; chain_id = "test-1"; block_time = 2000 };
}

abbrev pub contract : Contract
contract = record {
  bytes_to_hash = λ _. 0;
  update_validator_commission_id = 1;
  set_withdrawal_address_id = 2;
  set_reward_address_id = 3;
  set_operator_id = 4;
  unset_operator_id = 5;
  create_validator_id = 6;
  deposit_id = 7;
  redelegate_id = 8;
  withdraw_id = 9;
  unjail_id = 10;
  parse_update_validator_commission = λ _. err [];
  parse_set_withdrawal_address = λ _. err [];
  parse_set_reward_address = λ _. err [];
  parse_set_operator = λ _. err [];
  parse_unset_operator = λ _. err [];
  parse_create_validator = λ _. err [];
  parse_deposit = λ _. err [];
  parse_redelegate = λ _. err [];
  parse_withdraw = λ _. err [];
  parse_unjail = λ _. err [];
}

abbrev pub unstaked : Withdrawal
unstaked = new_withdrawal 90 "0xaa" 5 unstake "0xbb"

abbrev pub rewarded : Withdrawal
rewarded = new_withdrawal 91 "0xaa" 6 reward "0xbb"

-- A queue of one entry, with key 0
abbrev pub queue_of : Withdrawal → Queue Withdrawal
queue_of w = record {
  front = some 0;
  rear = some 1;
  elements = λ i. if i == 0 then some w else none;
}

pub queue_of-Represents : (w : Withdrawal) → Represents (queue_of w) 0 (w ∷ [])
queue_of-Represents w = record {
  front_eq = refl;
  rear_eq = refl;
  fits = omega arith;
  elems = λ i. ground arith;
}

abbrev pub vacant : Queue Withdrawal
vacant = record { front = none; rear = none; elements = λ i. none }

abbrev pub staking_state : StakingState World
staking_state = record {
  withdrawal_queue = queue_of unstaked;
  reward_withdrawal_queue = queue_of rewarded;
  delegator_withdraw_address = λ _. none;
  delegator_reward_address = λ _. none;
  delegator_operator_address = λ _. none;
  params = some (4 ∷ 16 ∷ 10 ∷ []);
  validator_sweep_index = none;
  events = [];
  ext = tt;
}
