-- ===== src/Mint/Begin.antt =====
-- client/x/mint/keeper/abci.go, keeper.go, params.go and genesis.go: the store of the parameters, the
-- minting at the beginning of a block, and the genesis.
pub mod Balances
pub mod Stored
use story.Base.{
  ℕ, ◌^◌, Bool, true, false, ◌&&◌, ◌||◌, not, String, Option, none, some, List, [], ◌∷◌, ltb, leb,
  ◌==◌, if◌then◌else◌,
}
use story.Errors.{cause, not_found}
use story.Action.{Outcome, ok, err, panic, Action, Done, pure, modify, outcome, ◌>>=◌, ◌>>◌}
use story.Mint.Params.{Decimals, Params, validate, default_inflation_calculation}

-- What the module calls, over the state `X` of all other modules.
pub record Keepers (X : Type 0) : Type 0 where
  pub singularity_height : X → Outcome ℕ
  -- `MintCoins` of the bank, to the module's account
  pub bank_mint_coins : String → ℕ → Action X Done
  -- `SendCoinsFromModuleToModule`, from the module to the fee collector
  pub send_to_fee_collector : String → ℕ → Action X Done
  -- which creates the module's account where it is missing
  pub get_module_account : Action X Done

pub record MintEvent : Type 0 where
  pub amount : ℕ

pub record State (D : Decimals) (X : Type 0) : Type 0 where
  pub params : Option (Params D)
  pub events : List MintEvent
  pub ext : X

pub record GenesisState (D : Decimals) : Type 0 where
  pub params : Params D

-- The amount of a block
unfoldable pub minted_coin : (D : Decimals) → Params D → Outcome ℕ
minted_coin D p = elim (default_inflation_calculation D p) [
  | err e ↦ err e
  | panic ↦ panic
  | ok d ↦ D.new_coin p.mint_denom d
]

-- The singularity's height is compared as an `int64`.
abbrev pub before_singularity : ℕ → ℕ → Bool
before_singularity block_height height = ltb height (2 ^ 63) && ltb block_height height

module _ (D : Decimals) {X : Type 0} where
  abbrev call : {A : Type 0} → Action X A → Action (State D X) A
  call m s = let (r, x) = m s.ext in (r, record s { ext = x })

  unfoldable pub get_params : Action (State D X) (Params D)
  get_params s = elim s.params [ none ↦ (err (cause not_found ∷ []), s) | some p ↦ (ok p, s) ]

  unfoldable pub set_params : Params D → Action (State D X) Done
  set_params p s = elim (validate D p) [
    | err e ↦ (err e, s)
    | panic ↦ (panic, s)
    | ok _ ↦ (ok tt, record s { params = some p })
  ]

  -- Coins of one denomination are empty where the amount is zero.
  unfoldable pub mint_coins : Keepers X → String → ℕ → Action (State D X) Done
  mint_coins k denom amount = if amount == 0 then pure tt else call (k.bank_mint_coins denom amount)

  unfoldable pub add_collected_fees : Keepers X → String → ℕ → Action (State D X) Done
  add_collected_fees k denom amount = call (k.send_to_fee_collector denom amount)

  unfoldable pub mint_block : Keepers X → Action (State D X) Done
  mint_block k = do
    params ← get_params
    amount ← outcome (minted_coin D params)
    mint_coins k params.mint_denom amount
    add_collected_fees k params.mint_denom amount
    modify (λ s. record s { events = record { amount = amount } ∷ s.events })

  unfoldable pub begin_blocker : Keepers X → ℕ → Action (State D X) Done
  begin_blocker k block_height s = elim (k.singularity_height s.ext) [
    | err e ↦ (err e, s)
    | panic ↦ (panic, s)
    | ok height ↦ if before_singularity block_height height then (ok tt, s) else mint_block k s
  ]

  -- The parameters of a genesis are stored as they are.
  unfoldable pub init_genesis : Keepers X → GenesisState D → Action (State D X) Done
  init_genesis k gs = do
    modify (λ s. record s { params = some gs.params })
    call k.get_module_account

  unfoldable pub export_genesis : State D X → Outcome (GenesisState D)
  export_genesis s = elim s.params [ none ↦ panic | some p ↦ ok (record { params = p }) ]
