-- ===== src/Cli/Minimum.antt =====
-- What a command that stakes sends is at least the contract's minimum.
use story.Base.{ℕ, ◌≤◌, ◌≡◌, refl, sym, ap, subst, ◌∙◌, Bool, false, String, List, [], ◌∷◌, arith}
use story.Action.{ok, Action, Done, outcome, pure, fail_if, ◌>>=◌, ◌>>◌}
use story.Action.Laws.{bind_ok_inv, outcome_inv, then_inv, fail_if_inv}
use story.Engine.Convert.{set_bytes}
use story.Cli.World.{
  ℤ, pos, negsuc, less_than, Arg, BaseConfig, StakeConfig, CreateValidatorConfig, SignedTx, Env,
  State, call,
}
use story.Cli.Transaction.{read_contract, prepare_and_read_contract, get_uint256}
use story.Cli.Queries.{amount_of}
use story.Cli.Validate.{
  validate_flags, validate_min, validate_min_stake_amount, validate_commission_rate, own_pub_key,
  check_validator, check_found, validate_validator_create_flags, validate_validator_stake_flags,
  validate_validator_stake_on_behalf_flags,
}
use story.Cli.Run.{Command, validate, perform, run, run_validator_command}
use story.Cli.Run
use story.Cli.Intends.{Asks, creates, stakes, stakes_on_behalf}
use story.Cli.Once.{run-Sends}

-- The commands whose value is a stake
pub data Staking : Command → StakeConfig → Type 0 where
  by_create : (cfg : CreateValidatorConfig) → Staking (Run.create cfg) cfg.stake
  by_stake : (cfg : StakeConfig) → Staking (Run.stake cfg) cfg
  by_stake_on_behalf : (cfg : StakeConfig) → Staking (Run.stake_on_behalf cfg) cfg

module _ {X K : Type 0} (env : Env X K) where
  -- The contract answers a getter with the same bytes at any time.
  abbrev pub Constant : BaseConfig → String → List ℕ → Type 0
  Constant cfg getter answer =
      (x : X)
      → (env.node.call_contract cfg.contract_addr (env.codec.selector getter) x).0 ≡ ok answer

  get_uint256-Constant :
      (cfg : BaseConfig) (getter : String) (answer : List ℕ) (s t : State X) (n : ℕ)
      → Constant cfg getter answer
      → get_uint256 env cfg getter s ≡ (ok n, t)
      → n ≡ set_bytes 0 answer
  unfolding get_uint256 prepare_and_read_contract read_contract
  get_uint256-Constant cfg getter answer s t n constant e =
      let (result, u, read, end) =
        bind_ok_inv (prepare_and_read_contract env cfg getter) (λ r. pure (set_bytes 0 r)) s t n
          e in
      let (v, _, called) =
        then_inv (call (env.node.dial cfg.rpc))
          (call (env.node.call_contract cfg.contract_addr (env.codec.selector getter))) s u result
          read in
      let found = ap (λ p. p.0) called in
      let fixed = constant v.ext in
      let same : result ≡ answer = cc in
      let last = ap (λ p. p.0) end in
      let value : set_bytes 0 result ≡ n = cc in sym value ∙ ap (set_bytes 0) same

  -- The comparison of an amount
  abbrev at_least : BaseConfig → String → ℤ → Action (State X) Done
  at_least cfg getter amount =
      get_uint256 env cfg getter >>= λ min. fail_if (less_than amount min) []

  not_less : (a : ℤ) (m : ℕ) → less_than a m ≡ false → (n : ℕ) × (a ≡ pos n) × (m ≤ n)
  not_less (pos n) m h = (n, refl, ground arith)
  not_less (negsuc n) m h = absurd (ground arith)

  validate_min_inv :
      (cfg : BaseConfig) (getter text : String) (answer : List ℕ) (s t : State X)
      → Constant cfg getter answer
      → validate_min env cfg getter text s ≡ (ok tt, t)
      → (n : ℕ) × (amount_of env text ≡ ok (pos n)) × (set_bytes 0 answer ≤ n)
  validate_min_inv cfg getter text answer s t constant e =
      let (a, parsed, rest) = outcome_inv (at_least cfg getter) s t tt (amount_of env text) e in
      let (m, u, got, tested) =
        bind_ok_inv (get_uint256 env cfg getter) (λ min. fail_if (less_than a min) []) s t tt
          rest in
      let (enough, _) = fail_if_inv (less_than a m) [] u t tested in
      let (n, same, above) = not_less a m enough in
      let read = get_uint256-Constant cfg getter answer s u m constant got in
      (n, parsed ∙ ap ok same, subst (λ k. k ≤ n) read above)

  Asks-value :
      (c : Command) (cfg : StakeConfig) (base : BaseConfig) (method : String) (value : ℤ)
      (args : List Arg)
      → Staking c cfg
      → Asks env c base method value args
      → amount_of env cfg.stake_amount ≡ ok value
  Asks-value c cfg base method value args (by_create _) (creates _ _ _ own a) = a
  Asks-value c cfg base method value args (by_stake _) (stakes _ _ _ key a) = a
  Asks-value c cfg base method value args (by_stake_on_behalf _) (stakes_on_behalf _ _ _ key a) = a

  -- What is checked of a new validator after its stake
  abbrev after_create : CreateValidatorConfig → Action (State X) Done
  after_create cfg =
      validate_commission_rate env cfg
      >> (own_pub_key env cfg.stake.base >>= λ key.
          check_validator env cfg.stake.base false key (λ _. pure tt))

  -- The checks of a stake, after those of some flags
  stake-minimum :
      (changed : String → Bool) (flags : List String) (cfg : StakeConfig) (answer : List ℕ)
      (s t : State X) (rest : Action (State X) Done)
      → Constant cfg.base "minStakeAmount" answer
      → (outcome (validate_flags changed flags) >> (validate_min_stake_amount env cfg >> rest)) s
        ≡ (ok tt, t)
      → (n : ℕ) × (amount_of env cfg.stake_amount ≡ ok (pos n)) × (set_bytes 0 answer ≤ n)
  unfolding validate_min_stake_amount
  stake-minimum changed flags cfg answer s t rest constant e =
      let (u, _, after) =
        then_inv (outcome (validate_flags changed flags))
          (validate_min_stake_amount env cfg >> rest) s t tt e in
      let (v, checked, _) = then_inv (validate_min_stake_amount env cfg) rest u t tt after in
      validate_min_inv cfg.base "minStakeAmount" cfg.stake_amount answer u v constant checked

  validate-minimum :
      (changed : String → Bool) (c : Command) (cfg : StakeConfig) (answer : List ℕ) (s t : State X)
      → Staking c cfg
      → Constant cfg.base "minStakeAmount" answer
      → validate env changed c s ≡ (ok tt, t)
      → (n : ℕ) × (amount_of env cfg.stake_amount ≡ ok (pos n)) × (set_bytes 0 answer ≤ n)
  unfolding validate_validator_create_flags validate_validator_stake_flags
      validate_validator_stake_on_behalf_flags validate_min_stake_amount
  validate-minimum changed c cfg answer s t (by_create create) constant e =
      stake-minimum changed ("moniker" ∷ []) create.stake answer s t (after_create create) constant
        e
  validate-minimum changed c cfg answer s t (by_stake _) constant e =
      stake-minimum changed ("validator-pubkey" ∷ "stake" ∷ []) cfg answer s t
        (check_found env cfg.base cfg.validator_pub_key) constant e
  validate-minimum changed c cfg answer s t (by_stake_on_behalf _) constant e =
      stake-minimum changed ("validator-pubkey" ∷ "delegator-address" ∷ "stake" ∷ []) cfg answer s t
        (check_found env cfg.base cfg.validator_pub_key) constant e

  -- A command that stakes or creates a validator, and that succeeds while the contract's minimum stays
  -- the same, sends one transaction, which carries at least the minimum.
  pub run-minimum :
      (changed : String → Bool) (c : Command) (cfg : StakeConfig) (answer : List ℕ) (s t : State X)
      → Staking c cfg
      → Constant cfg.base "minStakeAmount" answer
      → run env changed c s ≡ (ok tt, t)
      → (tx : SignedTx) × (n : ℕ) × (t.sent ≡ tx ∷ s.sent)
        × (tx.tx.value ≡ pos n)
        × (set_bytes 0 answer ≤ n)
  unfolding run run_validator_command
  run-minimum changed c cfg answer s t staking constant e =
      let (u, valid, _) = then_inv (validate env changed c) (perform env c) s t tt e in
      let (n, parsed, above) = validate-minimum changed c cfg answer s u staking constant valid in
      let (tx, new, intends) = (run-Sends env changed c).on_ok s tt (ap (λ p. p.0) e) in
      let asked =
        Asks-value c cfg intends.base intends.method intends.value intends.args staking
          intends.asks in
      let same : intends.value ≡ pos n = cc in
      (tx, n, sym (ap (λ p. p.1.sent) e) ∙ new, intends.of.value_eq ∙ same, above)
