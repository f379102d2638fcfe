-- ===== src/App/Migrations/Virgil.antt =====
-- client/app/upgrades/singularity/virgil: the handler that changes the periods of staking, and with
-- the short one the end of every short delegation.
pub mod Store
pub mod Moved
use text.Mathlib.Text.{◌==◌ as str_eq}
use story.Base.{
  ℕ, ◌+◌, ◌-◌, ◌*◌, ◌^◌, Bool, true, false, not, String, none, some, List, [], ◌∷◌, map, ltb, ◌==◌,
  u64_mod, sub_int64, if◌then◌else◌,
}
use story.Action.{Outcome, ok, err, Action, Done, pure, ask, fail_if, outcome, ◌>>=◌, ◌>>◌}
use story.Netconf.{story_chain_id}
use story.App.Forks.{virgil_upgrade_height}
use story.App.Migrations.Staking.{StakingTypes, Period, Params, PeriodDelegation, StakingKeeper}

-- `NewShortPeriodDuration`, 90 days
abbrev pub new_short_period_duration : ℕ
new_short_period_duration = 7776000 * 1000000000

-- `Time.Add`, of a duration that may be negative
abbrev pub time_add : ℕ → ℕ → ℕ
time_add t d = if ltb d (2 ^ 63) then t + d else t - (u64_mod - d)

pub record RewardsMultipliers (T : StakingTypes) : Type 0 where
  pub short : T.LegacyDec
  pub medium : T.LegacyDec
  pub long : T.LegacyDec

module _ (T : StakingTypes) where
  abbrev pub moved : ℕ → PeriodDelegation T → PeriodDelegation T
  moved shift d = record d { end_time = time_add d.end_time shift }

  unfoldable pub rewards_multipliers : String → RewardsMultipliers T
  rewards_multipliers chain_id =
      if str_eq chain_id story_chain_id
      then record {
        short = T.new_dec_with_prec 11 1;
        medium = T.new_dec_with_prec 15 1;
        long = T.new_dec_with_prec 20 1;
      }
      else record {
        short = T.new_dec_with_prec 1051 3;
        medium = T.new_dec_with_prec 116 2;
        long = T.new_dec_with_prec 134 2;
      }

  unfoldable pub update_period : RewardsMultipliers T → Period T → Period T
  update_period m p =
      if p.period_type == 1
      then record p { duration = new_short_period_duration; rewards_multiplier = m.short }
      else if p.period_type == 2
      then record p { rewards_multiplier = m.medium }
      else if p.period_type == 3
      then record p { rewards_multiplier = m.long }
      else p

  -- The duration of the last short period; `old` where there is none
  unfoldable pub old_short_period_duration : ℕ → List (Period T) → ℕ
  old_short_period_duration old [] = old
  old_short_period_duration old (p ∷ ps) =
      old_short_period_duration (if p.period_type == 1 then p.duration else old) ps

  unfoldable pub check_period : RewardsMultipliers T → Period T → Bool
  check_period m p =
      if p.period_type == 1
      then if p.duration == new_short_period_duration
        then T.dec_equal p.rewards_multiplier m.short
        else false
      else if p.period_type == 2
      then T.dec_equal p.rewards_multiplier m.medium
      else if p.period_type == 3
      then T.dec_equal p.rewards_multiplier m.long
      else true

  unfoldable pub check_periods : RewardsMultipliers T → List (Period T) → Outcome Done
  check_periods m [] = ok tt
  check_periods m (p ∷ ps) =
      let rest = check_periods m ps in if check_period m p then rest else err []

module _ {T : StakingTypes} {X : Type 0} (keeper : StakingKeeper T X) where
  -- A short delegation is stored with its new end, and read back.
  unfoldable pub move_delegation : ℕ → PeriodDelegation T → Action X Done
  move_delegation shift d = do
    del ← outcome (keeper.acc_from_bech32 d.delegator_address)
    val ← outcome (keeper.val_from_bech32 d.validator_address)
    keeper.set_period_delegation del val (moved T shift d)
    new ← ask (keeper.get_period_delegation del val d.period_delegation_id)
    fail_if (not (new.end_time == time_add d.end_time shift)) []

  unfoldable pub move_delegations : ℕ → List (PeriodDelegation T) → Action X Done
  move_delegations shift [] = pure tt
  move_delegations shift (d ∷ ds) =
      let rest = move_delegations shift ds in
      if d.period_type == 1 then move_delegation shift d >> rest else rest

  unfoldable pub migrate_delegations : ℕ → Action X Done
  migrate_delegations old_duration = do
    delegations ← ask keeper.get_all_period_delegations
    move_delegations (sub_int64 new_short_period_duration old_duration) delegations

  unfoldable pub migrate_periods : RewardsMultipliers T → Params T → Action X Done
  migrate_periods m params = do
    keeper.set_params (record params { periods = map (update_period T m) params.periods })
    new ← ask keeper.get_params
    outcome (check_periods T m new.periods)

  -- The handler of Virgil
  unfoldable pub upgrade_virgil : {VM : Type 0} → String → VM → Action X VM
  upgrade_virgil chain_id vm = elim (virgil_upgrade_height chain_id) [
    | none ↦ pure vm
    | some height ↦ do
      params ← ask keeper.get_params
      migrate_periods (rewards_multipliers T chain_id) params
      migrate_delegations (old_short_period_duration T 0 params.periods)
      pure vm
  ]
