-- ===== src/Tests/Cli.antt =====
-- The theorems on the commands at a stake of 9 of a node that has no API, whose minimum is 5.
use story.Base.{ℕ, ◌≤◌, ◌≡◌, refl, Bool, true, false, String, none, some, [], ◌∷◌}
use story.Action.{ok, err, Action}
use story.Cli.World.{pos, StakeConfig, SignedTx, Env, State}
use story.Cli.Transaction.{
  read_contract, prepare_and_read_contract, get_uint256, estimate_gas, send, submit,
  send_transaction, prepare_and_execute_transaction,
}
use story.Cli.Validate.{validate_flags, validate_min_stake_amount, validate_validator_stake_flags}
use story.Cli.Commands.{extract_delegation_id_from_stake}
use story.Cli.Commands
use story.Cli.Run.{Command, run, run_validator_command}
use story.Cli.Run
use story.Cli.Sends.{Sends}
use story.Cli.Intends.{Intends}
use story.Cli.Once.{run-Sends}
use story.Cli.Minimum.{by_stake, run-minimum}
use story.Tests.Keys.{curve}

abbrev World : Type 0
World = Unit {0}

abbrev done : {A : Type 0} → A → Action World A
done a x = (ok a, x)

abbrev env : Env World ℕ
env = record {
  node = record {
    load_priv_key = done none;
    dial = λ _. done tt;
    call_contract = λ _ _. done (5 ∷ []);
    pending_nonce_at = λ _. done 3;
    suggest_gas_price = done 100;
    estimate_gas = λ _. done 21;
    balance_at = λ _. done 6000;
    send_transaction = λ _. done tt;
    wait_mined = λ _.
        done (record { failed = false; logs = record { topics = 77 ∷ []; payload = [] } ∷ [] });
    http_get = λ _ _ x. (err [], x);
    now = λ _. 0;
  };
  codec = record {
    curve = curve;
    hex_to_ecdsa = λ _. ok 1;
    hex_decode = λ _. ok (2 ∷ []);
    hex_to_address = λ _. 7;
    address_text = λ _. "";
    set_string = λ _. some (pos 9);
    selector = λ _. 1 ∷ 2 ∷ 3 ∷ 4 ∷ [];
    abi = ok tt;
    pack = λ _ _. ok (8 ∷ []);
    unpack_fee = λ _. ok 1;
    deposit_id = 77;
    unpack_delegation_id = λ _. ok 0;
    sign_tx = λ _ _. ok (6 ∷ []);
    unmarshal_validator = λ _. err [];
    unmarshal_self_delegation = λ _. err [];
    staking_contract = 12;
  };
}

abbrev config : StakeConfig
config = record {
  base = record {
    rpc = "http";
    private_key = "01";
    chain_id = pos 1514;
    contract_addr = 12;
    story_api = none;
  };
  delegator_address = "";
  validator_pub_key = "02";
  stake_amount = "9";
  stake_period = 0;
}

abbrev command : Command
command = Run.stake config

abbrev all : String → Bool
all flag = true

abbrev before : State World
before = record { ext = tt; sent = [] }

abbrev sent : SignedTx
sent = record {
  tx = record {
    chain_id = pos 1514;
    nonce = 3;
    gas_fee_cap = 240;
    gas_tip_cap = 120;
    gas = 21;
    to = 12;
    value = pos 9;
    payload = 8 ∷ [];
  };
  signature = 6 ∷ [];
}

abbrev after : State World
after = record { ext = tt; sent = sent ∷ [] }

runs : run env all command before ≡ (ok tt, after)
unfolding run run_validator_command validate_validator_stake_flags validate_flags
    validate_min_stake_amount get_uint256 prepare_and_read_contract read_contract Commands.stake
    prepare_and_execute_transaction send_transaction estimate_gas submit send
    extract_delegation_id_from_stake
runs = refl

run-Sends_example : Sends (Intends env command) (run env all command)
run-Sends_example = run-Sends env all command

run-minimum_example :
    (tx : SignedTx) × (n : ℕ) × (after.sent ≡ tx ∷ []) × (tx.tx.value ≡ pos n) × (5 ≤ n)
run-minimum_example =
    run-minimum env all command config (5 ∷ []) before after (by_stake config) (λ x. refl) runs
