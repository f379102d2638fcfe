-- ===== src/Engine/Ubi.antt =====
-- client/x/evmengine/keeper/ubi.go: the percentage of the universal basic income.
use story.Base.{List, [], ◌∷◌}
use story.ErrCode
use story.Errors.{invalid_request}
use story.Action.{panic, Action, Done, pure, map_err, outcome, ◌>>=◌, ◌>>◌}
use story.Evm.{EvmEvent, EthLog, verify, to_eth_log}
use story.Staking.Events.{
  Attribute, num, bytes, block_height, tx_hash, ubi_percentage, update_ubi_success,
  update_ubi_failure,
}
use story.Staking.Handlers.{event_of, failure_of, coded}
use story.Staking.Dispatch.{skip_failure, switch}
use story.Engine.Types.{UbiPercentageSet}
use story.Engine.State.{Env, State, call}
use story.Engine.Upgrades.{process}

module _ {X : Type 0} (env : Env X) where
  abbrev ubi_attributes : UbiPercentageSet → List Attribute
  ubi_attributes ev =
      (block_height, num env.staking.block_height)
      ∷ (ubi_percentage, num ev.percentage)
      ∷ (tx_hash, bytes ev.tx_hash)
      ∷ []

  unfoldable pub process_ubi_percentage_set : UbiPercentageSet → Action (State X) Done
  process_ubi_percentage_set ev =
      process (event_of update_ubi_success (ubi_attributes ev))
        (failure_of update_ubi_failure (ubi_attributes ev))
        (map_err (coded ((invalid_request, ErrCode.invalid_request) ∷ []))
          (call (env.modules.set_ubi ev.percentage)))

  unfoldable pub ubi_log : EthLog → Action (State X) Done
  ubi_log log s = elim log.topics [
    | [] ↦ (panic, s)
    | t ∷ ts ↦
        switch t
          ((
            env.contracts.ubi_percentage_set_id,
            skip_failure (
                outcome (env.contracts.parse_ubi_percentage_set log)
                >>= process_ubi_percentage_set),
          )
            ∷ [])
          s
  ]

  unfoldable pub process_ubi_events : List EvmEvent → Action (State X) Done
  process_ubi_events [] = pure tt
  process_ubi_events (l ∷ logs) =
      let rest = process_ubi_events logs in
      do
        outcome (verify l)
        log ← outcome (to_eth_log env.contracts.ip_token_staking.bytes_to_hash l)
        ubi_log log
        rest
