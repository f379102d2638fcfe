-- ===== src/App/Migrations/Staking.antt =====
-- client/app/upgrades/polybius: the parameters and the delegations of the staking module as the
-- handlers see them, and the handler that changes the number of validators.
use story.Base.{ℕ, Bool, not, String, List, []}
use story.Action.{Outcome, Action, Done, pure, ask, fail_if, ◌>>=◌, ◌>>◌}

-- What the staking module's parameters and delegations hold that no handler looks into: decimals, and
-- the parameters other than the periods and the number of validators.
pub record StakingTypes : Type 1 where
  pub LegacyDec : Type 0
  pub new_dec_with_prec : ℕ → ℕ → LegacyDec
  pub dec_equal : LegacyDec → LegacyDec → Bool
  pub OtherParams : Type 0

-- Durations are nanoseconds, as the 64 bits of an `int64`.
pub record Period (T : StakingTypes) : Type 0 where
  pub period_type : ℕ
  pub duration : ℕ
  pub rewards_multiplier : T.LegacyDec

pub record Params (T : StakingTypes) : Type 0 where
  pub periods : List (Period T)
  pub max_validators : ℕ
  pub other : T.OtherParams

-- A time is the nanoseconds since Go's zero time, in UTC as the store gives it back.
pub record PeriodDelegation (T : StakingTypes) : Type 0 where
  pub delegator_address : String
  pub validator_address : String
  pub period_delegation_id : String
  pub period_type : ℕ
  pub shares : T.LegacyDec
  pub rewards_shares : T.LegacyDec
  pub end_time : ℕ

pub record StakingKeeper (T : StakingTypes) (X : Type 0) : Type 0 where
  pub get_params : X → Outcome (Params T)
  pub set_params : Params T → Action X Done
  pub params_equal : Params T → Params T → Bool
  pub get_all_period_delegations : X → Outcome (List (PeriodDelegation T))
  pub set_period_delegation : ℕ → ℕ → PeriodDelegation T → Action X Done
  pub get_period_delegation : ℕ → ℕ → String → X → Outcome (PeriodDelegation T)
  pub acc_from_bech32 : String → Outcome ℕ
  pub val_from_bech32 : String → Outcome ℕ

abbrev pub new_max_validators : ℕ
new_max_validators = 80

module _ {T : StakingTypes} {X : Type 0} (keeper : StakingKeeper T X) where
  -- The handler of Polybius
  unfoldable pub upgrade_polybius : {VM : Type 0} → VM → Action X VM
  upgrade_polybius vm = do
    params ← ask keeper.get_params
    keeper.set_params (record params { max_validators = new_max_validators })
    new ← ask keeper.get_params
    fail_if (not (keeper.params_equal new (record params { max_validators = new_max_validators })))
        []
    pure vm
