-- ===== src/Tests/Operators.antt =====
-- An operator's call, and a deposit, at height 100.
use story.Base.{◌≡◌, refl, some, List, [], ◌∷◌, ℕ}
use story.Action.{ok}
use story.Staking.Types.{Unjail, Deposit, SetAddress, SetOperator, UnsetOperator}
use story.Staking.State.{State}
use story.Staking.Handlers.{
  process, settle, validator_address, pub_key_bytes_to_cosmos, check_operator,
}
use story.Staking.Handlers.Addresses.{
  process_set_withdrawal_address, process_set_reward_address, process_set_operator,
  process_unset_operator,
}
use story.Staking.Queries.{get_operator_address, get_withdraw_address, get_reward_address}
use story.Staking.Queries.Current.{queries_after}
use story.Staking.Handlers.Unjail.{process_unjail, unjail_body, unjail_as}
use story.Staking.Handlers.Frames.{Request, handle}
use story.Staking.Handlers.Owned.{Owned, handle-Owned}
use story.Staking.Handlers.Operator.{MayAct, OnBehalf, handle-MayAct}
use story.Tests.Data.{World, staking_env, staking_state}

abbrev key : List ℕ
key =
    2 ∷ 1 ∷ 1 ∷ 1 ∷ 1 ∷ 1 ∷ 1 ∷ 1 ∷ 1 ∷ 1 ∷ 1 ∷ 1 ∷ 1 ∷ 1 ∷ 1 ∷ 1 ∷ 1 ∷ 1 ∷ 1 ∷ 1 ∷ 1 ∷ 1 ∷ 1 ∷ 1
    ∷ 1 ∷ 1 ∷ 1 ∷ 1 ∷ 1 ∷ 1 ∷ 1 ∷ 1 ∷ 1 ∷ []

abbrev release : Unjail
release = record { unjailer = 4; validator_cmp_pubkey = key; tx_hash = [] }

handle-MayAct_example : MayAct staking_env staking_state 3 4
unfolding process_unjail unjail_body unjail_as validator_address pub_key_bytes_to_cosmos
    check_operator process settle
handle-MayAct_example =
    handle-MayAct staking_env (Request.unjail release) 3 4 staking_state
      (OnBehalf.unjail release 3 refl) refl

abbrev pub staked : Deposit
staked = record {
  validator_cmp_pubkey = key;
  stake_amount = 1024;
  staking_period = 0;
  delegation_id = 0;
  delegator = 5;
  operator_address = 6;
  tx_hash = [];
}

abbrev pub known : State World
known = record staking_state {
  delegator_withdraw_address = λ _. some "0xdd";
  delegator_reward_address = λ _. some "0xee";
}

handle-Owned_example :
    Owned staking_env "acc" "0xdd" "0xee"
      (Request.deposit staked)
      known
      (handle staking_env (Request.deposit staked) known).1
handle-Owned_example =
    handle-Owned staking_env (Request.deposit staked) "acc" "0xdd" "0xee" known refl refl

abbrev paid : SetAddress
paid = record { delegator = 4; execution_address = 7; tx_hash = [] }

abbrev appointed : SetOperator
appointed = record { delegator = 4; operator = 8; tx_hash = [] }

abbrev dismissed : UnsetOperator
dismissed = record { delegator = 4; tx_hash = [] }

queries_after_example :
    (get_withdraw_address
        (some "acc")
        (process_set_withdrawal_address staking_env paid staking_state).1
      ≡ ok "addr")
    × (get_reward_address (some "acc") (process_set_reward_address staking_env paid staking_state).1
        ≡ ok "addr")
    × (get_operator_address
          (some "acc")
          (process_set_operator staking_env appointed staking_state).1
        ≡ ok "addr")
    × (get_operator_address
          (some "acc")
          (process_unset_operator staking_env dismissed staking_state).1
        ≡ ok "")
queries_after_example = queries_after staking_env staking_state paid appointed dismissed
