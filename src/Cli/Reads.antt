-- ===== src/Cli/Reads.antt =====
-- The checks of a command send nothing.
use story.Base.{
  ℕ, ◌≡◌, refl, ◌∙◌, Bool, true, false, String, Option, none, some, List, if◌then◌else◌,
}
use story.Errors.{Error}
use story.Action.{
  Outcome, ok, err, panic, Action, Done, pure, fail, gets, outcome, fail_if, ◌>>=◌, ◌>>◌,
}
use story.Cli.World.{BaseConfig, Env, State, call}
use story.Cli.Transaction.{read_contract, prepare_and_read_contract, get_uint256}
use story.Cli.Queries.{
  get_validator_by_evm_addr, is_validator_found, get_self_delegation, validate_min_self_delegation,
  validate_new_commission_rate,
}
use story.Cli.Validate.{
  validate_min_stake_amount, validate_min_unstake_amount, validate_min_redelegate_amount,
  validate_commission_rate, check_validator, validate_validator_create_flags,
  validate_operator_flags, validate_withdrawal_flags, validate_rewards_flags,
  validate_validator_stake_flags, validate_validator_stake_on_behalf_flags,
  validate_validator_unstake_flags, validate_validator_unstake_on_behalf_flags,
  validate_validator_redelegate_flags, validate_validator_redelegate_on_behalf_flags,
  validate_validator_unjail_flags, validate_validator_unjail_on_behalf_flags,
  validate_update_validator_commission_flags,
}
use story.Cli.Run
use story.Cli.Run.{Command, validate}

-- Nothing is sent.
pub record Reads {X A : Type 0} (m : Action (State X) A) : Type 0 where
  pub reads : (s : State X) → (m s).1.sent ≡ s.sent

module _ {X A : Type 0} where
  pub Reads-outcome : (r : Outcome A) → Reads {X = X} (outcome {S = State X} r)
  Reads-outcome r = record { reads = λ s. refl }

  pub Reads-ok : (a : A) → Reads {X = X} (pure a)
  Reads-ok a = record { reads = λ s. refl }

  pub Reads-fail : (e : Error) → Reads {X = X} {A = A} (fail e)
  Reads-fail e = record { reads = λ s. refl }

  pub Reads-call : (m : Action X A) → Reads (call {X = X} m)
  Reads-call m = record { reads = λ s. refl }

  pub Reads-gets : (f : State X → A) → Reads {X = X} (gets f)
  Reads-gets f = record { reads = λ s. refl }

  pub Reads-if :
      (b : Bool) (m n : Action (State X) A) → Reads m → Reads n → Reads (if b then m else n)
  Reads-if true m n k l = k
  Reads-if false m n k l = l

module _ {X : Type 0} where
  pub Reads-fail_if : (b : Bool) (e : Error) → Reads {X = X} (fail_if b e)
  Reads-fail_if true e = record { reads = λ s. refl }
  Reads-fail_if false e = record { reads = λ s. refl }

module _ {X A B : Type 0} (m : Action (State X) A) (f : A → Action (State X) B) where
  go :
      (s t : State X) (r : Outcome A)
      → ((a : A) → Reads (f a))
      → t.sent ≡ s.sent
      → let p : Outcome B × State X = elim r [
        | ok a ↦ f a t
        | err e ↦ (err e, t)
        | panic ↦ (panic, t)
      ] in
        p.1.sent ≡ s.sent
  go s t (ok a) l e = (l a).reads t ∙ e
  go s t (err x) l e = e
  go s t panic l e = e

  pub Reads-bind : Reads m → ((a : A) → Reads (f a)) → Reads (m >>= f)
  Reads-bind k l = record { reads = λ s. go s (m s).1 (m s).0 l (k.reads s) }

module _ {X A : Type 0} (m : Action (State X) Done) (n : Action (State X) A) where
  pub Reads-then : Reads m → Reads n → Reads (m >> n)
  Reads-then k l = Reads-bind m (λ _. n) k (λ _. l)

pub ruleset reading_calls = (
  Reads-outcome, Reads-ok, Reads-fail, Reads-fail_if, Reads-call, Reads-gets, Reads-if, Reads-bind,
  Reads-then,
)

module _ {X K : Type 0} (env : Env X K) where
  pub prepare_and_read_contract-Reads :
      (cfg : BaseConfig) (method : String) → Reads (prepare_and_read_contract env cfg method)
  unfolding prepare_and_read_contract read_contract
  prepare_and_read_contract-Reads cfg method = search reading_calls

  pub get_uint256-Reads : (cfg : BaseConfig) (getter : String) → Reads (get_uint256 env cfg getter)
  unfolding get_uint256
  get_uint256-Reads cfg getter = search (reading_calls, prepare_and_read_contract-Reads)

  get_validator_by_evm_addr-Reads :
      (endpoint addr : String) → Reads (get_validator_by_evm_addr env endpoint addr)
  unfolding get_validator_by_evm_addr
  get_validator_by_evm_addr-Reads endpoint addr = search reading_calls

  is_validator_found-Reads :
      (endpoint : String) (key : List ℕ) → Reads (is_validator_found env endpoint key)
  unfolding is_validator_found
  is_validator_found-Reads endpoint key = search (reading_calls, get_validator_by_evm_addr-Reads)

  get_self_delegation-Reads :
      (endpoint addr : String) → Reads (get_self_delegation env endpoint addr)
  unfolding get_self_delegation
  get_self_delegation-Reads endpoint addr = search reading_calls

  validate_min_self_delegation-Reads :
      (endpoint : String) (key : List ℕ) → Reads (validate_min_self_delegation env endpoint key)
  unfolding validate_min_self_delegation
  validate_min_self_delegation-Reads endpoint key =
      search (reading_calls, get_validator_by_evm_addr-Reads, get_self_delegation-Reads) depth 12

  validate_new_commission_rate-Reads :
      (endpoint : String) (rate : ℕ) (key : List ℕ)
      → Reads (validate_new_commission_rate env endpoint rate key)
  unfolding validate_new_commission_rate
  validate_new_commission_rate-Reads endpoint rate key =
      search (reading_calls, get_validator_by_evm_addr-Reads)

  check_validator-Reads :
      (cfg : BaseConfig) (expected : Bool) (key : List ℕ) (rest : String → Action (State X) Done)
      → ((endpoint : String) → Reads (rest endpoint))
      → Reads (check_validator env cfg expected key rest)
  check_validator-Reads cfg expected key rest k = go cfg.story_api
    where
      go :
          (api : Option String)
          → Reads (check_validator env (record cfg { story_api = api }) expected key rest)
      go none = Reads-ok tt
      go (some endpoint) = search (reading_calls, is_validator_found-Reads)

  ruleset checks = (
    reading_calls, get_uint256-Reads, validate_min_self_delegation-Reads,
    validate_new_commission_rate-Reads, check_validator-Reads,
  )

  -- The checks of a command's flags send no transaction.
  pub validate-Reads : (changed : String → Bool) (c : Command) → Reads (validate env changed c)
  unfolding validate_min_stake_amount validate_min_unstake_amount validate_min_redelegate_amount
      validate_commission_rate validate_validator_create_flags validate_operator_flags
      validate_withdrawal_flags validate_rewards_flags validate_validator_stake_flags
      validate_validator_stake_on_behalf_flags validate_validator_unstake_flags
      validate_validator_unstake_on_behalf_flags validate_validator_redelegate_flags
      validate_validator_redelegate_on_behalf_flags validate_validator_unjail_flags
      validate_validator_unjail_on_behalf_flags validate_update_validator_commission_flags
  validate-Reads changed (Run.create cfg) = search checks depth 12
  validate-Reads changed (Run.set_operator cfg) = search checks depth 12
  validate-Reads changed (Run.unset_operator cfg) = search checks depth 12
  validate-Reads changed (Run.set_withdrawal_address cfg) = search checks depth 12
  validate-Reads changed (Run.set_rewards_address cfg) = search checks depth 12
  validate-Reads changed (Run.stake cfg) = search checks depth 12
  validate-Reads changed (Run.stake_on_behalf cfg) = search checks depth 12
  validate-Reads changed (Run.unstake cfg) = search checks depth 12
  validate-Reads changed (Run.unstake_on_behalf cfg) = search checks depth 12
  validate-Reads changed (Run.redelegate cfg) = search checks depth 12
  validate-Reads changed (Run.redelegate_on_behalf cfg) = search checks depth 12
  validate-Reads changed (Run.unjail cfg) = search checks depth 12
  validate-Reads changed (Run.unjail_on_behalf cfg) = search checks depth 12
  validate-Reads changed (Run.update_commission cfg) = search checks depth 12
