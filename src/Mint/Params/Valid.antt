-- ===== src/Mint/Params/Valid.antt =====
-- Which parameters of the mint module are stored.
use text.Mathlib.Text.{◌==◌ as str_eq}
use story.Base.{◌≡◌, ◌≢◌, ◌↔◌, false, arith}
use story.Action.{ok}
use story.Mint.Params.{
  Decimals, Params, validate_mint_denom, validate_inflations_per_year, validate_blocks_per_year,
  validate,
}

pub record IsValid (D : Decimals) (p : Params D) : Type 0 where
  pub not_blank : str_eq (D.trim_space p.mint_denom) "" ≡ false
  pub denom_ok : D.validate_denom p.mint_denom ≡ ok tt
  pub not_nil : D.is_nil p.inflations_per_year ≡ false
  pub not_negative : D.is_negative p.inflations_per_year ≡ false
  pub some_blocks : p.blocks_per_year ≢ 0

pub validate_iff : (D : Decimals) (p : Params D) → (validate D p ≡ ok tt) ↔ IsValid D p
unfolding validate validate_mint_denom validate_inflations_per_year validate_blocks_per_year
validate_iff D p = ground arith
