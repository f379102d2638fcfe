-- ===== src/Cli/Rates.antt =====
-- The checks of commission rates.
use story.Base.{ℕ, ◌+◌, ◌*◌, ◌^◌, ◌≤◌, ◌≡◌, ◌↔◌, false, arith}
use story.Action.{ok}
use story.Engine.Payload.{is_none}
use story.Cli.World.{Validator, CreateValidatorConfig, Env}
use story.Cli.Queries.{check_commission, day}
use story.Cli.Validate.{check_rates}

module _ {X K : Type 0} (env : Env X K) where
  -- The rates of a new validator pass exactly when the rate is between the contract's minimum and its
  -- own maximum, and the change of a day is not above that maximum.
  pub check_rates_iff :
      (min : ℕ) (cfg : CreateValidatorConfig)
      → (check_rates env min cfg ≡ ok tt) ↔ (
          (min ≤ cfg.commission_rate)
          × (cfg.commission_rate ≤ cfg.max_commission_rate)
          × (cfg.max_commission_change_rate ≤ cfg.max_commission_rate))
  unfolding check_rates
  check_rates_iff min cfg =
      (λ h. (ground arith, ground arith, ground arith), λ (low, high, change). ground arith)

  -- A new rate passes exactly when the validator has an operator, a day has gone by since the last
  -- change, and the rate is above neither the maximum nor the present rate and the largest change.
  pub check_commission_iff :
      (now rate : ℕ) (v : Validator)
      → (check_commission env now rate v ≡ ok tt) ↔ (
          (is_none v.operator_address ≡ false)
          × (v.update_time + day ≤ now)
          × (rate * 10 ^ 14 ≤ v.max_rate)
          × (rate * 10 ^ 14 ≤ v.rate + v.max_change_rate))
  unfolding check_commission
  check_commission_iff now rate v = (
    λ h. (ground arith, ground arith, ground arith, ground arith),
    λ (there, late, max, change). ground arith,
  )
