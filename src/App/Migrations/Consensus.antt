-- ===== src/App/Migrations/Consensus.antt =====
-- client/app/upgrades/v_1_2_0: the handler that changes the maximum of bytes of a block.
pub mod Kept
use story.Base.{ℕ, Bool, not, String, Option, none, some, [], ◌==◌, if◌then◌else◌}
use story.Action.{Outcome, ok, err, panic, Action, Done, pure, ask, outcome, ◌>>=◌, ◌>>◌}

-- The data of the consensus parameters that no handler looks into, with the `Equal` of each.
pub record ConsensusTypes : Type 1 where
  pub EvidenceParams : Type 0
  pub ValidatorParams : Type 0
  pub AbciParams : Type 0
  pub evidence_equal : EvidenceParams → EvidenceParams → Bool
  pub validator_equal : ValidatorParams → ValidatorParams → Bool
  pub abci_equal : AbciParams → AbciParams → Bool

pub record BlockParams : Type 0 where
  pub max_bytes : ℕ
  pub max_gas : ℕ

-- `none` is a nil pointer.
pub record ConsensusParams (T : ConsensusTypes) : Type 0 where
  pub block : Option BlockParams
  pub evidence : T.EvidenceParams
  pub validator : T.ValidatorParams
  pub abci : T.AbciParams
  pub version : Option ℕ

pub record MsgUpdateParams (T : ConsensusTypes) : Type 0 where
  pub authority : String
  pub block : Option BlockParams
  pub evidence : T.EvidenceParams
  pub validator : T.ValidatorParams
  pub abci : T.AbciParams

pub record ConsensusKeeper (T : ConsensusTypes) (X : Type 0) : Type 0 where
  pub params_store : X → Outcome (ConsensusParams T)
  pub authority : String
  pub update_params : MsgUpdateParams T → Action X Done

-- A nil pointer that is followed
abbrev pub deref : {A : Type 0} → Option A → Outcome A
deref none = panic
deref (some a) = ok a

abbrev pub new_max_bytes : ℕ
new_max_bytes = 20971520

abbrev pub new_block : BlockParams → BlockParams
new_block block = record block { max_bytes = new_max_bytes }

abbrev pub compare_block : BlockParams → BlockParams → Outcome Done
compare_block old new =
    if not (old.max_gas == new.max_gas)
    then err []
    else if not (new.max_bytes == new_max_bytes)
    then err []
    else ok tt

abbrev pub compare_version : ℕ → ℕ → Outcome Done
compare_version old new = if old == new then ok tt else err []

module _ {T : ConsensusTypes} where
  abbrev pub compare_opaque : ConsensusParams T → ConsensusParams T → Outcome Done
  compare_opaque old new =
      if not (T.evidence_equal old.evidence new.evidence)
      then err []
      else if not (T.validator_equal old.validator new.validator)
      then err []
      else if not (T.abci_equal old.abci new.abci)
      then err []
      else ok tt

module _ {T : ConsensusTypes} {X : Type 0} (keeper : ConsensusKeeper T X) where
  -- The message shares its block with the old parameters, and changes it.
  abbrev pub update_msg : ConsensusParams T → BlockParams → MsgUpdateParams T
  update_msg old block = record {
    authority = keeper.authority;
    block = some (new_block block);
    evidence = old.evidence;
    validator = old.validator;
    abci = old.abci;
  }

  -- What is read back, against the old parameters, whose block has changed with the message
  unfoldable pub compare_params :
      ConsensusParams T → BlockParams → ConsensusParams T → Action X Done
  compare_params old old_block new = do
    outcome (compare_opaque old new)
    block ← outcome (deref new.block)
    outcome (compare_block (new_block old_block) block)
    old_version ← outcome (deref old.version)
    version ← outcome (deref new.version)
    outcome (compare_version old_version version)

  -- The handler of v1.2.0
  unfoldable pub upgrade_v_1_2_0 : {VM : Type 0} → VM → Action X VM
  upgrade_v_1_2_0 vm = do
    old ← ask keeper.params_store
    old_block ← outcome (deref old.block)
    keeper.update_params (update_msg old old_block)
    new ← ask keeper.params_store
    compare_params old old_block new
    pure vm
