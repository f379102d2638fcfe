-- ===== src/Tests/App.antt =====
-- The application's theorems at a proposal of height 100, and the engine's genesis.
use story.Base.{
  ◌*◌, ◌<◌, ◌≡◌, ◌≢◌, ◌↔◌, ◌⊎◌, refl, true, false, none, some, List, [], ◌∷◌, ℕ, le_int64,
  add_int64, quo_int64, mul_int64, arith, length,
}
use story.Netconf.{get_upgrade_height, get_upgrade_history, get_upgrade_block}
use story.Action.{ok, err, Action, Done}
use story.Engine.Types.{GenesisState}
use story.Engine.State.{State, get_execution_head}
use story.Engine.Genesis.{init_genesis, export_genesis, execution_block_hash}
use story.Engine.Genesis.Head.{init_genesis_lem, begun, genesis_head}
use story.Engine.Upgrades.{should_upgrade, no_plan}
use story.Engine.Upgrades.Pending.{pending_with}
use story.App.Votes.{Vote, commit, absent, has_quorum, total_power, committed_power, has_quorum_iff}
use story.App.Tx.{ProtoTx, StandardTx, Tx, Msg, validate_tx, IsBare, validate_tx_iff}
use story.App.Router.{accept, RequestProcessProposal, Env, process_proposal}
use story.App.Router.Admits.{Admits, process_proposal_iff}
use story.App.Forks.{
  schedule_fork_upgrade, schedule_forks, schedule_fork, fork_height, virgil_upgrade_height,
  v_1_2_0_upgrade_height, polybius_upgrade_height, terence_upgrade_height, pre_blocker, hand_over,
}
use story.App.Forks.Heights.{Agree, fork_height-get_upgrade_height}
use story.App.Forks.Due.{pre_blocker-should_upgrade}
use story.Tests.Data.{World, env, state, message, plan}

-- Three of four equal powers have committed.
abbrev votes : List Vote
votes =
    record { power = 5; block_id_flag = commit }
    ∷ record { power = 5; block_id_flag = absent }
    ∷ record { power = 5; block_id_flag = commit }
    ∷ record { power = 5; block_id_flag = commit }
    ∷ []

has_quorum_iff_example :
    (has_quorum votes ≡ true) ↔ (2 * total_power votes < 3 * committed_power votes)
has_quorum_iff_example = has_quorum_iff votes (omega arith)

-- Two of three equal powers are no quorum.
no_quorum :
    has_quorum (
      record { power = 5; block_id_flag = absent }
      ∷ record { power = 5; block_id_flag = commit }
      ∷ record { power = 5; block_id_flag = commit }
      ∷ [])
    ≡ false
unfolding has_quorum le_int64 add_int64 quo_int64 mul_int64
no_quorum = refl

abbrev account : List ℕ
account = 1 ∷ 2 ∷ []

abbrev proto : ProtoTx
proto = record { signatures = 0; auth_info = some true }

abbrev standard : StandardTx
standard = record {
  signatures_v2 = ok 0;
  memo_length = 0;
  has_fee = false;
  fee_payer = account;
  has_fee_granter = false;
}

abbrev tx : Tx
tx = record {
  proto_tx = some proto;
  standard_tx = some standard;
  tip_tx = none;
  msgs = Msg.execution_payload message ∷ [];
}

validate_tx_iff_example : (validate_tx account tx ≡ ok tt) ↔ IsBare account proto standard none
validate_tx_iff_example = validate_tx_iff account tx proto standard refl refl

abbrev app_env : Env World
app_env = record { engine = env; tx_decoder = λ _. ok tx; module_account = account }

abbrev request : RequestProcessProposal
request = record { height = 100; txs = (7 ∷ []) ∷ []; votes = votes }

process_proposal_iff_example :
    (process_proposal app_env 1 request state ≡ some (ok accept, state))
    ↔ Admits app_env 1 state state request
process_proposal_iff_example = process_proposal_iff app_env 1 request state state

fork_height-get_upgrade_height_example : Agree "story-1"
fork_height-get_upgrade_height_example = fork_height-get_upgrade_height "story-1"

abbrev waiting : State World
waiting = pending_with env plan state

abbrev pre_block : Action (State World) Done
pre_block s = (ok tt, s)

pre_blocker-should_upgrade_example : should_upgrade env waiting ≡ (false, no_plan)
unfolding pre_blocker schedule_fork_upgrade schedule_forks schedule_fork fork_height
    virgil_upgrade_height v_1_2_0_upgrade_height polybius_upgrade_height terence_upgrade_height
    get_upgrade_height get_upgrade_history get_upgrade_block should_upgrade hand_over
pre_blocker-should_upgrade_example =
    pre_blocker-should_upgrade env pre_block tt waiting waiting (λ u. refl) refl

abbrev pub hash : List ℕ
hash =
    1 ∷ 1 ∷ 1 ∷ 1 ∷ 1 ∷ 1 ∷ 1 ∷ 1 ∷ 1 ∷ 1 ∷ 1 ∷ 1 ∷ 1 ∷ 1 ∷ 1 ∷ 1 ∷ 1 ∷ 1 ∷ 1 ∷ 1 ∷ 1 ∷ 1 ∷ 1 ∷ 1
    ∷ 1 ∷ 1 ∷ 1 ∷ 1 ∷ 1 ∷ 1 ∷ 1 ∷ 1 ∷ []

abbrev genesis : GenesisState
genesis = record { params = record { execution_block_hash = hash } }

abbrev empty : State World
empty = record state { head = none }

init_genesis_lem_example :
    ((length hash ≡ 32)
      × (init_genesis env genesis empty ≡ (ok tt, begun env genesis hash empty))
      × (export_genesis env (begun env genesis hash empty) ≡ ok genesis)
      × (execution_block_hash env (begun env genesis hash empty) ≡ ok hash)
      × (get_execution_head (begun env genesis hash empty)
          ≡ ok (genesis_head env genesis hash empty)))
    ⊎ ((length hash ≢ 32) × (init_genesis env genesis empty ≡ (err [], empty)))
init_genesis_lem_example = init_genesis_lem env genesis hash empty refl refl refl
