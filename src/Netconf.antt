-- ===== src/Netconf.antt =====
-- lib/netconf/upgrades.go and chains.go: the heights of the upgrades, for each network.
use text.Mathlib.Text.{◌==◌ as str_eq}
use story.Base.{ℕ, Bool, String, List, [], ◌∷◌, Option, none, some, leb, if◌then◌else◌}
use story.Errors.{cause, unknown_chain_id, unknown_upgrade}
use story.Action.{Outcome, ok, err, panic}

abbrev pub virgil : String
virgil = "virgil"

abbrev pub ovid : String
ovid = "v1.2.0"

abbrev pub polybius : String
polybius = "polybius"

abbrev pub v121 : String
v121 = "v1.2.1"

abbrev pub terence : String
terence = "terence"

abbrev pub test_chain_id : String
test_chain_id = "test-1"

abbrev pub local_chain_id : String
local_chain_id = "story-1001511"

abbrev pub story_localnet_id : String
story_localnet_id = "story-localnet"

abbrev pub aeneid_chain_id : String
aeneid_chain_id = "devnet-1"

abbrev pub story_chain_id : String
story_chain_id = "story-1"

-- A map as the list of its entries
abbrev pub lookup : {A : Type 0} → String → List (String × A) → Option A
lookup k [] = none
lookup k ((j, a) ∷ m) = if str_eq k j then some a else lookup k m

abbrev pub UpgradeMap : Type 0
UpgradeMap = List (String × ℕ)

abbrev pub upgrade_histories : List (String × UpgradeMap)
upgrade_histories =
    (test_chain_id, (v121, 10) ∷ (terence, 50) ∷ [])
    ∷ (local_chain_id, (v121, 0) ∷ (terence, 50) ∷ [])
    ∷ (story_localnet_id, (v121, 0) ∷ (terence, 0) ∷ [])
    ∷ (
      aeneid_chain_id,
      (virgil, 345158)
          ∷ (ovid, 4362990)
          ∷ (v121, 5238000)
          ∷ (polybius, 6008000)
          ∷ (terence, 10886688)
          ∷ [],
    )
    ∷ (
      story_chain_id,
      (virgil, 809988)
          ∷ (ovid, 4477880)
          ∷ (v121, 5084300)
          ∷ (polybius, 8270000)
          ∷ (terence, 11538000)
          ∷ [],
    )
    ∷ []

unfoldable pub get_upgrade_block : UpgradeMap → String → Outcome ℕ
get_upgrade_block um name = elim (lookup name um) [
  | none ↦ err (cause unknown_upgrade ∷ [])
  | some height ↦ ok height
]

unfoldable pub get_upgrade_history : String → Outcome UpgradeMap
get_upgrade_history chain_id = elim (lookup chain_id upgrade_histories) [
  | none ↦ err (cause unknown_chain_id ∷ [])
  | some um ↦ ok um
]

unfoldable pub get_upgrade_height : String → String → Outcome ℕ
unfolding get_upgrade_history get_upgrade_block
get_upgrade_height chain_id name = elim (get_upgrade_history chain_id) [
  | ok um ↦ get_upgrade_block um name
  | err e ↦ err e
  | panic ↦ panic
]

-- What `IsV121` and `IsTerence` share: whether the block is at or past the upgrade's height.
abbrev is_past : String → String → ℕ → Outcome Bool
is_past name chain_id block_number = elim (get_upgrade_height chain_id name) [
  | ok height ↦ ok (leb height block_number)
  | err e ↦ err e
  | panic ↦ panic
]

unfoldable pub is_v121 : String → ℕ → Outcome Bool
is_v121 chain_id block_number = is_past v121 chain_id block_number

unfoldable pub is_terence : String → ℕ → Outcome Bool
is_terence chain_id block_number = is_past terence chain_id block_number
