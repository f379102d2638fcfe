-- ===== src/Cli/Once.antt =====
-- Each command sends its transaction once, or nothing.
use story.Base.{ℕ, ◌≡◌, refl, inl, Bool, String, List, arith}
use story.Action.{Outcome, ok, err, panic, Action, ◌>>=◌}
use story.Cli.World.{ℤ, BaseConfig, Arg, SignedTx, Env, State}
use story.Cli.KeyUtils.{priv_key_to_cmp_pub_key}
use story.Cli.Transaction.{prepare_and_execute_transaction}
use story.Cli.Validate.{own_pub_key}
use story.Cli.Commands.{
  execute, execute_stake, create_validator, set_withdrawal_address, set_rewards_address,
  set_operator, unset_operator, stake, stake_on_behalf, unstake, unstake_on_behalf, redelegate,
  redelegate_on_behalf, unjail, unjail_on_behalf, update_validator_commission,
}
use story.Cli.Run.{Command, validate, perform, run_validator_command, run}
use story.Cli.Run
use story.Cli.Reads.{reading_calls, validate-Reads}
use story.Cli.Sends.{
  Sends, Sends-Ended, Ended, Sends-bind, Sends-before, Sends-then, Sends-outcome, Sends-weaken, Of,
  send_transaction-Sends,
}
use story.Cli.Fees.{Sends-read_fee, Sends-get_uint256}
use story.Cli.Intends.{
  OwnKey, Asks, creates, sets_operator, unsets_operator, sets_withdrawal_address,
  sets_rewards_address, stakes, stakes_on_behalf, unstakes, unstakes_on_behalf, redelegates,
  redelegates_on_behalf, unjails, unjails_on_behalf, updates_commission, Intends,
}

module _ {X K : Type 0} (env : Env X K) where
  Sends-own_pub_key :
      {A : Type 0} (P : SignedTx → Type 0) (cfg : BaseConfig) (f : List ℕ → Action (State X) A)
      → ((key : List ℕ) → OwnKey env cfg key → Sends P (f key))
      → Sends P (own_pub_key env cfg >>= f)
  Sends-own_pub_key {A} P cfg f l =
      Sends-Ended P (own_pub_key env cfg >>= f)
        (λ s. go s (env.codec.hex_decode cfg.private_key) refl)
    where
      next : Outcome (List ℕ) × State X → Outcome A × State X
      next p = elim p.0 [ ok a ↦ f a p.1 | err e ↦ (err e, p.1) | panic ↦ (panic, p.1) ]

      derive :
          (s : State X) (bz : List ℕ) (r : Outcome (List ℕ))
          → env.codec.hex_decode cfg.private_key ≡ ok bz
          → priv_key_to_cmp_pub_key env.codec.curve bz ≡ r
          → Ended P s (next (r, s))
      derive s bz (ok key) e k =
          let own = l key (record { secret = bz; secret_eq = e; key_eq = k }) in
          (own.at_most s, own.on_ok s)
      derive s bz (err x) e k = (inl refl, λ b h. absurd (ground arith))
      derive s bz panic e k = (inl refl, λ b h. absurd (ground arith))

      go :
          (s : State X) (r : Outcome (List ℕ))
          → env.codec.hex_decode cfg.private_key ≡ r
          → Ended P s (
              next (elim r [
                | ok bz ↦ (priv_key_to_cmp_pub_key env.codec.curve bz, s)
                | err e ↦ (err e, s)
                | panic ↦ (panic, s)
              ]))
      go s (ok bz) e = derive s bz (priv_key_to_cmp_pub_key env.codec.curve bz) e refl
      go s (err x) e = (inl refl, λ b h. absurd (ground arith))
      go s panic e = (inl refl, λ b h. absurd (ground arith))

  module _ (c : Command) (cfg : BaseConfig) (method : String) (value : ℤ) (args : List Arg)
      (asks : Asks env c cfg method value args) where
    transaction-Sends :
        Sends (Intends env c) (prepare_and_execute_transaction env cfg method value args)
    unfolding prepare_and_execute_transaction
    transaction-Sends =
        Sends-outcome (Intends env c) (env.codec.pack method args) (λ payload. _)
          (λ payload e.
            Sends-weaken (Of env cfg cfg.contract_addr value payload) (Intends env c) _
              (λ t o. record {
                base = cfg;
                method = method;
                value = value;
                args = args;
                asks = asks;
                payload = payload;
                packed = e;
                of = o;
              })
              (send_transaction-Sends env cfg cfg.contract_addr value payload))

    execute-Sends : Sends (Intends env c) (execute env cfg method value args)
    execute-Sends = search (Sends-before, transaction-Sends, reading_calls)

    execute_stake-Sends : Sends (Intends env c) (execute_stake env cfg method value args)
    execute_stake-Sends = search (Sends-before, transaction-Sends, reading_calls)

  ruleset performing = (
    Sends-bind, Sends-then, Sends-outcome, Sends-own_pub_key, execute-Sends, execute_stake-Sends,
    Sends-read_fee, Sends-get_uint256, creates, sets_operator, unsets_operator,
    sets_withdrawal_address, sets_rewards_address, stakes, stakes_on_behalf, unstakes,
    unstakes_on_behalf, redelegates, redelegates_on_behalf, unjails, unjails_on_behalf,
    updates_commission,
  )

  perform-Sends : (c : Command) → Sends (Intends env c) (perform env c)
  unfolding create_validator set_withdrawal_address set_rewards_address set_operator unset_operator
      stake stake_on_behalf unstake unstake_on_behalf redelegate redelegate_on_behalf unjail
      unjail_on_behalf update_validator_commission
  perform-Sends (Run.create cfg) = search performing depth 12
  perform-Sends (Run.set_operator cfg) = search performing depth 12
  perform-Sends (Run.unset_operator cfg) = search performing depth 12
  perform-Sends (Run.set_withdrawal_address cfg) = search performing depth 12
  perform-Sends (Run.set_rewards_address cfg) = search performing depth 12
  perform-Sends (Run.stake cfg) = search performing depth 12
  perform-Sends (Run.stake_on_behalf cfg) = search performing depth 12
  perform-Sends (Run.unstake cfg) = search performing depth 12
  perform-Sends (Run.unstake_on_behalf cfg) = search performing depth 12
  perform-Sends (Run.redelegate cfg) = search performing depth 12
  perform-Sends (Run.redelegate_on_behalf cfg) = search performing depth 12
  perform-Sends (Run.unjail cfg) = search performing depth 12
  perform-Sends (Run.unjail_on_behalf cfg) = search performing depth 12
  perform-Sends (Run.update_commission cfg) = search performing depth 12

  -- A command sends nothing or one transaction, which is the command's: its method with its arguments,
  -- to the contract of the configuration, signed with the configuration's key. Its value is the amount
  -- for a stake and a new validator, and otherwise a fee that the contract has answered, read by the
  -- ABI or as a number as the command does. A command that succeeds has sent it.
  pub run-Sends :
      (changed : String → Bool) (c : Command) → Sends (Intends env c) (run env changed c)
  unfolding run run_validator_command
  run-Sends changed c =
      Sends-then (Intends env c) (validate env changed c) (perform env c)
        (validate-Reads env changed c) (perform-Sends c)
