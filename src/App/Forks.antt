-- ===== src/App/Forks.antt =====
-- client/app/upgrades.go, `scheduleForkUpgrade`, the heights in client/app/upgrades/*/constants.go and
-- upgrades.go, and `PreBlocker` of client/app/app.go: what runs before a block's modules.
pub mod Heights
pub mod Due
use text.Mathlib.Text.{◌==◌ as str_eq}
use story.Base.{
  ℕ, Bool, true, false, String, Option, none, some, List, [], ◌∷◌, ◌==◌, if◌then◌else◌,
}
use story.Action.{Outcome, ok, err, panic, Action, Done, pure, ◌>>=◌, ◌>>◌}
use story.Netconf.{
  virgil, ovid, polybius, terence, aeneid_chain_id, story_chain_id, get_upgrade_height,
}
use story.Engine.Types.{Plan}
use story.Engine.State.{Env, State, call}
use story.Engine.Upgrades.{should_upgrade, reset_pending_upgrade}

pub record Fork : Type 0 where
  pub upgrade_name : String
  pub upgrade_info : String

abbrev pub forks : List Fork
forks =
    record {
      upgrade_name = virgil;
      upgrade_info =
          "upgrade to change the duration of the short staking period during the singularity period";
    }
    ∷ record {
      upgrade_name = ovid;
      upgrade_info = "upgrade to change the max bytes of block in consensus parameters";
    }
    ∷ record {
      upgrade_name = polybius;
      upgrade_info = "upgrade to increase max number of validator to 80";
    }
    ∷ record {
      upgrade_name = terence;
      upgrade_info =
          "Terence upgrade that supports rolling upgrade via upgrade entrypoint contract with single binary";
    }
    ∷ []

-- A height on Aeneid and one on Story
abbrev two_networks : ℕ → ℕ → String → Option ℕ
two_networks on_aeneid on_story chain_id =
    if str_eq chain_id aeneid_chain_id
    then some on_aeneid
    else if str_eq chain_id story_chain_id
    then some on_story
    else none

unfoldable pub virgil_upgrade_height : String → Option ℕ
virgil_upgrade_height = two_networks 345158 809988

unfoldable pub v_1_2_0_upgrade_height : String → Option ℕ
v_1_2_0_upgrade_height = two_networks 4362990 4477880

unfoldable pub polybius_upgrade_height : String → Option ℕ
polybius_upgrade_height = two_networks 6008000 8270000

unfoldable pub terence_upgrade_height : String → Option ℕ
terence_upgrade_height chain_id = elim (get_upgrade_height chain_id terence) [
  | ok height ↦ some height
  | err _ ↦ none
  | panic ↦ none
]

-- The height of a fork on a network; `none` skips the fork. A fork of another name would have the
-- height of its declaration, which is 0 for each.
unfoldable pub fork_height : String → String → Option ℕ
fork_height chain_id name =
    if str_eq name virgil
    then virgil_upgrade_height chain_id
    else if str_eq name ovid
    then v_1_2_0_upgrade_height chain_id
    else if str_eq name polybius
    then polybius_upgrade_height chain_id
    else if str_eq name terence
    then terence_upgrade_height chain_id
    else some 0

abbrev pub or_panic : {X : Type 0} → Outcome Done × State X → Outcome Done × State X
or_panic (ok d, s) = (ok d, s)
or_panic (err e, s) = (panic, s)
or_panic (panic, s) = (panic, s)

module _ {X : Type 0} (env : Env X) where
  abbrev pub plan_of : Fork → Plan
  plan_of fork = record {
    name = fork.upgrade_name;
    height = env.staking.block_height;
    info = fork.upgrade_info;
  }

  unfoldable pub schedule_fork : Fork → Action (State X) Done
  schedule_fork fork = elim (fork_height env.staking.chain_id fork.upgrade_name) [
    | none ↦ pure tt
    | some height ↦
        if env.staking.block_height == height
        then (λ s. or_panic (call (env.modules.schedule_upgrade_plan (plan_of fork)) s))
        else pure tt
  ]

  unfoldable pub schedule_forks : List Fork → Action (State X) Done
  schedule_forks [] = pure tt
  schedule_forks (fork ∷ rest) = let later = schedule_forks rest in schedule_fork fork >> later

  unfoldable pub schedule_fork_upgrade : Action (State X) Done
  schedule_fork_upgrade = schedule_forks forks

  -- A pending plan whose height is reached is handed to the upgrade module.
  unfoldable pub hand_over : Bool × Plan → Action (State X) Done
  hand_over (false, plan) = pure tt
  hand_over (true, plan) = do
    call (env.modules.schedule_upgrade_plan plan)
    reset_pending_upgrade env

  unfoldable pub schedule_due : Action (State X) Done
  schedule_due s = hand_over (should_upgrade env s) s

  -- `pre_block` is the `PreBlock` of the module manager.
  unfoldable pub pre_blocker : {A : Type 0} → Action (State X) A → Action (State X) A
  unfolding schedule_fork_upgrade schedule_due
  pre_blocker pre_block = do schedule_fork_upgrade; schedule_due; pre_block
