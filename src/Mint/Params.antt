-- ===== src/Mint/Params.antt =====
-- client/x/mint/types/params.go and genesis.go, keeper/params.go and genesis.go: the parameters, their
-- validation, the amount of a block, and the genesis.
pub mod Valid
use text.Mathlib.Text.{◌==◌ as str_eq}
use story.Base.{ℕ, ◌*◌, ◌/◌, Bool, String, [], ◌==◌, if◌then◌else◌}
use story.Action.{Outcome, ok, err, panic, Done}

-- `math.LegacyDec` and what the SDK says of coins. An `int64` is given by its 64 bits.
pub record Decimals : Type 1 where
  pub LegacyDec : Type 0
  pub is_nil : LegacyDec → Bool
  pub is_negative : LegacyDec → Bool
  -- `LegacyNewDec`
  pub new_dec : ℕ → LegacyDec
  -- `Quo` panics where the divisor is zero or the result is too large.
  pub quo : LegacyDec → LegacyDec → Outcome LegacyDec
  -- `NewCoin` at the `TruncateInt` of an amount, which panics where it is negative
  pub new_coin : String → LegacyDec → Outcome ℕ
  pub trim_space : String → String
  pub validate_denom : String → Outcome Done
  pub default_bond_denom : String

module _ (D : Decimals) where
  open D use {
    LegacyDec, is_nil, is_negative, new_dec, quo, trim_space, validate_denom, default_bond_denom,
  }

  pub record Params : Type 0 where
    pub mint_denom : String
    pub inflations_per_year : LegacyDec
    pub blocks_per_year : ℕ

  pub default_params : Params
  default_params = record {
    mint_denom = default_bond_denom;
    inflations_per_year = new_dec 24625000000000000;
    blocks_per_year = 60 * 60 * 8766 / 5;
  }

  unfoldable pub validate_mint_denom : String → Outcome Done
  validate_mint_denom v = if str_eq (trim_space v) "" then err [] else validate_denom v

  unfoldable pub validate_inflations_per_year : LegacyDec → Outcome Done
  validate_inflations_per_year v =
      if is_nil v then err [] else if is_negative v then err [] else ok tt

  unfoldable pub validate_blocks_per_year : ℕ → Outcome Done
  validate_blocks_per_year v = if v == 0 then err [] else ok tt

  unfoldable pub validate : Params → Outcome Done
  validate p = elim (validate_mint_denom p.mint_denom) [
    | err e ↦ err e
    | panic ↦ panic
    | ok _ ↦ elim (validate_inflations_per_year p.inflations_per_year) [
      | err e ↦ err e
      | panic ↦ panic
      | ok _ ↦ validate_blocks_per_year p.blocks_per_year
    ]
  ]

  -- `DefaultInflationCalculationFn`; the number of blocks is taken as an `int64`.
  unfoldable pub default_inflation_calculation : Params → Outcome LegacyDec
  default_inflation_calculation p = quo p.inflations_per_year (new_dec p.blocks_per_year)
