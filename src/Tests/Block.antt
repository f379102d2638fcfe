-- ===== src/Tests/Block.antt =====
-- A block of two deposits of a delegator with both addresses.
use story.Base.{refl, none, [], ◌∷◌, arith}
use story.Action.{ok}
use story.Evm.{EthLog}
use story.Staking.Dispatch.{Contract, process_staking_events}
use story.Staking.Dispatch.Owned.{Holds, Quiet, process_staking_events-Holds}
use story.Tests.Data.{staking_env, contract}
use story.Tests.Operators.{known, staked}
use story.Tests.Survival.{log}

abbrev deposits : Contract
deposits = record contract {
  bytes_to_hash = λ _. 7;
  parse_deposit = λ _. ok (record staked { stake_amount = 1_024_000_000_000 });
}

quiet : (log : EthLog) → Quiet staking_env deposits "acc" log
quiet log = record {
  withdrawal_address = λ ev h. ground arith;
  reward_address = λ ev h. ground arith;
  operator = λ ev h. ground arith;
  no_operator = λ ev h. ground arith;
}

process_staking_events-Holds_example :
    Holds "acc" "0xdd" "0xee" none
      (process_staking_events staking_env deposits (log ∷ log ∷ []) known).1
process_staking_events-Holds_example =
    process_staking_events-Holds staking_env deposits (log ∷ log ∷ []) "acc" "0xdd" "0xee" none
      known ((λ l _. quiet l), ((λ l _. quiet l), tt))
      (record { withdraw = refl; reward = refl; operator = refl })
