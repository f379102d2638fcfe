-- ===== src/App/Loaders.antt =====
-- client/app/upgrades.go, `setupUpgradeStoreLoaders` and `UpgradeStoreLoader`: which stores a node adds,
-- renames or deletes when it loads its state. The multi-store and its loaders are the SDK's.
use text.Mathlib.Text.{◌==◌ as str_eq}
use story.Base.{
  ℕ, ◌+◌, ◌≡◌, refl, sym, ap, ◌∙◌, Bool, true, false, ◌||◌, not, String, Option, none, some, List,
  [], ◌∷◌, ◌==◌, if◌then◌else◌, arith,
}
use story.Action.{Outcome, ok, err, panic, Action, Done}
use story.Netconf.{UpgradeMap, get_upgrade_history, virgil, ovid, polybius, terence}

pub record StoreUpgrades : Type 0 where
  pub added : List String
  pub renamed : List (String × String)
  pub deleted : List String

-- The stores' changes of the four upgrades: none
abbrev pub no_changes : StoreUpgrades
no_changes = record { added = []; renamed = []; deleted = [] }

abbrev pub upgrades : List (String × StoreUpgrades)
upgrades =
    (virgil, no_changes) ∷ (ovid, no_changes) ∷ (polybius, no_changes) ∷ (terence, no_changes) ∷ []

-- By height
abbrev pub StoreUpgradesMap : Type 0
StoreUpgradesMap = ℕ → Option StoreUpgrades

abbrev set : ℕ → StoreUpgrades → StoreUpgradesMap → StoreUpgradesMap
set height su m h = if h == height then some su else m h

-- The inner loop: the upgrades of a name
unfoldable pub of_name :
    List (String × StoreUpgrades) → String → ℕ → StoreUpgradesMap → StoreUpgradesMap
of_name [] name height m = m
of_name ((n, su) ∷ us) name height m =
    let rest = of_name us name height (if str_eq name n then set height su m else m) in rest

-- The loop over a history, in the order in which the map is ranged over, without the heights that are
-- skipped
unfoldable pub of_history : (ℕ → Bool) → UpgradeMap → StoreUpgradesMap → StoreUpgradesMap
of_history skip [] m = m
of_history skip ((name, height) ∷ um) m =
    of_history skip um (if skip height then m else of_name upgrades name height m)

abbrev is_empty : {A : Type 0} → List A → Bool
is_empty [] = true
is_empty _ = false

module _ {X : Type 0} (last_version : X → ℕ) (default_store_loader : Action X Done)
    (load_and_upgrade : StoreUpgrades → Action X Done) where
  unfoldable pub upgrade_store_loader : StoreUpgradesMap → Action X Done
  upgrade_store_loader m x = elim (m (last_version x + 1)) [
    | none ↦ default_store_loader x
    | some su ↦
        if not (is_empty su.renamed) || not (is_empty su.deleted) || not (is_empty su.added)
        then load_and_upgrade su x
        else default_store_loader x
  ]

  -- The loader of a chain; a chain that is not known is a panic.
  unfoldable pub setup_upgrade_store_loaders : (ℕ → Bool) → String → Outcome (Action X Done)
  setup_upgrade_store_loaders skip chain_id = elim (get_upgrade_history chain_id) [
    | ok um ↦ ok (upgrade_store_loader (of_history skip um (λ _. none)))
    | err e ↦ panic
    | panic ↦ panic
  ]

-- Every change of the map is none.
abbrev NoChanges : StoreUpgradesMap → Type 0
NoChanges m = (h : ℕ) (su : StoreUpgrades) → m h ≡ some su → su ≡ no_changes

NoChanges-set :
    (name n : String) (height : ℕ) (m : StoreUpgradesMap)
    → NoChanges m
    → NoChanges (if str_eq name n then set height no_changes m else m)
NoChanges-set name n height m k = go (str_eq name n)
  where
    go : (b : Bool) → NoChanges (if b then set height no_changes m else m)
    go false h su e = k h su e
    go true h su e = pick (h == height) e
      where
        pick : (c : Bool) → (if c then some no_changes else m h) ≡ some su → su ≡ no_changes
        pick true e = ground arith
        pick false e = k h su e

NoChanges-of_name :
    (name : String) (height : ℕ) (m : StoreUpgradesMap)
    → NoChanges m
    → NoChanges (of_name upgrades name height m)
unfolding of_name
NoChanges-of_name name height m k = NoChanges-set name terence height _ (
    NoChanges-set name polybius height _
      (NoChanges-set name ovid height _ (NoChanges-set name virgil height m k)))

NoChanges-of_history :
    (skip : ℕ → Bool) (um : UpgradeMap) (m : StoreUpgradesMap)
    → NoChanges m
    → NoChanges (of_history skip um m)
unfolding of_history
NoChanges-of_history skip [] m k = k
NoChanges-of_history skip ((name, height) ∷ um) m k =
    NoChanges-of_history skip um _ (go (skip height))
  where
    go : (b : Bool) → NoChanges (if b then m else of_name upgrades name height m)
    go true = k
    go false = NoChanges-of_name name height m k

-- Whatever the chain and the heights that are skipped, the loader that a node sets loads the state as
-- the SDK does by default, since no upgrade changes the stores.
pub setup_upgrade_store_loaders_lem :
    {X : Type 0} (last_version : X → ℕ) (default_store_loader : Action X Done)
    (load_and_upgrade : StoreUpgrades → Action X Done) (skip : ℕ → Bool) (chain_id : String)
    (loader : Action X Done) (x : X)
    → setup_upgrade_store_loaders last_version default_store_loader load_and_upgrade skip chain_id
      ≡ ok loader
    → loader x ≡ default_store_loader x
unfolding setup_upgrade_store_loaders upgrade_store_loader
setup_upgrade_store_loaders_lem {X} last_version default_store_loader load_and_upgrade skip chain_id
      loader x e =
    go (get_upgrade_history chain_id) e
  where
    load : StoreUpgradesMap → Action X Done
    load = upgrade_store_loader last_version default_store_loader load_and_upgrade

    default : (m : StoreUpgradesMap) → NoChanges m → load m x ≡ default_store_loader x
    default m k = pick (m (last_version x + 1)) refl
      where
        pick :
            (o : Option StoreUpgrades)
            → m (last_version x + 1) ≡ o
            → elim o [
              | none ↦ default_store_loader x
              | some su ↦
                  if not (is_empty su.renamed)
                    || not (is_empty su.deleted)
                    || not (is_empty su.added)
                  then load_and_upgrade su x
                  else default_store_loader x
            ]
              ≡ default_store_loader x
        pick none h = refl
        pick (some su) h = rw (k (last_version x + 1) su h) refl

    go :
        (r : Outcome UpgradeMap)
        → ◌≡◌ {A = Outcome (Action X Done)}
            (elim r [
              | ok um ↦ ok (load (of_history skip um (λ _. none)))
              | err e ↦ panic
              | panic ↦ panic
            ])
            (ok loader)
        → loader x ≡ default_store_loader x
    go (err y) e = ground arith
    go panic e = ground arith
    go (ok um) e =
        let m = of_history skip um (λ _. none) in
        let same : load m ≡ loader = cc in
        ap (λ l. l x) (sym same)
        ∙ default m (NoChanges-of_history skip um (λ _. none) (λ h su e. absurd (ground arith)))
