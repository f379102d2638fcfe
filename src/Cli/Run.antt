-- ===== src/Cli/Run.antt =====
-- client/cmd/validator.go: the commands as they are run, `runValidatorCommand` on the checks and the work
-- of each.
use story.Base.{Bool, String}
use story.Action.{Action, Done, ◌>>◌}
use story.Cli.World.{
  StakeConfig, CreateValidatorConfig, UnstakeConfig, RedelegateConfig, UnjailConfig,
  UpdateCommissionConfig, AddressConfig, Env, State,
}
use story.Cli.Validate
use story.Cli.Commands

pub data Command : Type 0 where
  create : CreateValidatorConfig → Command
  set_operator : AddressConfig → Command
  unset_operator : AddressConfig → Command
  set_withdrawal_address : AddressConfig → Command
  set_rewards_address : AddressConfig → Command
  stake : StakeConfig → Command
  stake_on_behalf : StakeConfig → Command
  unstake : UnstakeConfig → Command
  unstake_on_behalf : UnstakeConfig → Command
  redelegate : RedelegateConfig → Command
  redelegate_on_behalf : RedelegateConfig → Command
  unjail : UnjailConfig → Command
  unjail_on_behalf : UnjailConfig → Command
  update_commission : UpdateCommissionConfig → Command

module _ {X K : Type 0} (env : Env X K) where
  abbrev pub validate : (String → Bool) → Command → Action (State X) Done
  validate changed (create cfg) = Validate.validate_validator_create_flags env changed cfg
  validate changed (set_operator cfg) = Validate.validate_operator_flags env changed
  validate changed (unset_operator cfg) = Validate.validate_operator_flags env changed
  validate changed (set_withdrawal_address cfg) = Validate.validate_withdrawal_flags env changed
  validate changed (set_rewards_address cfg) = Validate.validate_rewards_flags env changed
  validate changed (stake cfg) = Validate.validate_validator_stake_flags env changed cfg
  validate changed (stake_on_behalf cfg) =
      Validate.validate_validator_stake_on_behalf_flags env changed cfg
  validate changed (unstake cfg) = Validate.validate_validator_unstake_flags env changed cfg
  validate changed (unstake_on_behalf cfg) =
      Validate.validate_validator_unstake_on_behalf_flags env changed cfg
  validate changed (redelegate cfg) = Validate.validate_validator_redelegate_flags env changed cfg
  validate changed (redelegate_on_behalf cfg) =
      Validate.validate_validator_redelegate_on_behalf_flags env changed cfg
  validate changed (unjail cfg) = Validate.validate_validator_unjail_flags env changed cfg
  validate changed (unjail_on_behalf cfg) =
      Validate.validate_validator_unjail_on_behalf_flags env changed cfg
  validate changed (update_commission cfg) =
      Validate.validate_update_validator_commission_flags env changed cfg

  abbrev pub perform : Command → Action (State X) Done
  perform (create cfg) = Commands.create_validator env cfg
  perform (set_operator cfg) = Commands.set_operator env cfg
  perform (unset_operator cfg) = Commands.unset_operator env cfg
  perform (set_withdrawal_address cfg) = Commands.set_withdrawal_address env cfg
  perform (set_rewards_address cfg) = Commands.set_rewards_address env cfg
  perform (stake cfg) = Commands.stake env cfg
  perform (stake_on_behalf cfg) = Commands.stake_on_behalf env cfg
  perform (unstake cfg) = Commands.unstake env cfg
  perform (unstake_on_behalf cfg) = Commands.unstake_on_behalf env cfg
  perform (redelegate cfg) = Commands.redelegate env cfg
  perform (redelegate_on_behalf cfg) = Commands.redelegate_on_behalf env cfg
  perform (unjail cfg) = Commands.unjail env cfg
  perform (unjail_on_behalf cfg) = Commands.unjail_on_behalf env cfg
  perform (update_commission cfg) = Commands.update_validator_commission env cfg

  unfoldable pub run_validator_command :
      Action (State X) Done → Action (State X) Done → Action (State X) Done
  run_validator_command validate execute = validate >> execute

  unfoldable pub run : (String → Bool) → Command → Action (State X) Done
  run changed c = run_validator_command (validate changed c) (perform c)
