-- ===== src/Cli/Queries.antt =====
-- client/cmd/flags.go: what the API of a node says of a validator, and the checks against it.
use story.Base.{
  ℕ, ◌+◌, ◌*◌, ◌^◌, Bool, true, false, not, ◌&&◌, String, Option, none, some, List, [], ltb, ◌==◌,
  if◌then◌else◌,
}
use story.Action.{Outcome, ok, err, panic, Action, Done, pure, gets, outcome, fail_if, ◌>>=◌}
use story.Engine.Payload.{is_none}
use story.Keys.{cosmos_pubkey_to_evm_address}
use story.Cli.World.{
  ℤ, pos, negsuc, Request, Response, Validator, ValidatorResponse, UpdateCommissionConfig, Env,
  State, call,
}
use story.Cli.World

-- The order of two numbers, each of either sign: `x.Cmp(y) < 0`
abbrev pub below : ℤ → ℤ → Bool
below (pos a) (pos b) = ltb a b
below (pos a) (negsuc b) = false
below (negsuc a) (pos b) = true
below (negsuc a) (negsuc b) = ltb b a

-- A day in nanoseconds
abbrev pub day : ℕ
day = 86400 * 10 ^ 9

module _ {X K : Type 0} (env : Env X K) where
  -- What a response says: `none` stands for `ErrValidatorNotFound`.
  unfoldable pub validator_of : Response → Outcome (Option Validator)
  validator_of resp =
      if not (resp.status_code == 200) && not (resp.status_code == 500)
      then err []
      else elim resp.body [
        | err e ↦ err e
        | panic ↦ panic
        | ok body ↦ elim (env.codec.unmarshal_validator body) [
          | err e ↦ err e
          | panic ↦ panic
          | ok response ↦
              if not (resp.status_code == 500)
              then ok (some response.validator)
              else if response.not_found
              then ok none
              else err []
        ]
      ]

  unfoldable pub get_validator_by_evm_addr : String → String → Action (State X) (Option Validator)
  get_validator_by_evm_addr endpoint addr = do
    resp ← call (env.node.http_get endpoint (World.validator addr))
    outcome (validator_of resp)

  -- `isValidatorFound`, where a validator without an operator is none
  unfoldable pub is_validator_found : String → List ℕ → Action (State X) Bool
  is_validator_found endpoint pub_key = do
    addr ← outcome (cosmos_pubkey_to_evm_address env.codec.curve pub_key)
    found ← get_validator_by_evm_addr endpoint (env.codec.address_text addr)
    pure (elim found [ none ↦ false | some v ↦ not (is_none v.operator_address) ])

  -- `getSelfDelegation`
  unfoldable pub self_delegation_of : Response → Outcome ℤ
  self_delegation_of resp = if not (resp.status_code == 200) then err [] else elim resp.body [
    | err e ↦ err e
    | panic ↦ panic
    | ok body ↦ elim (env.codec.unmarshal_self_delegation body) [
      | err e ↦ err e
      | panic ↦ panic
      | ok amount ↦ elim (env.codec.set_string amount) [ none ↦ err [] | some n ↦ ok n ]
    ]
  ]

  unfoldable pub get_self_delegation : String → String → Action (State X) ℤ
  get_self_delegation endpoint addr = do
    resp ← call (env.node.http_get endpoint (World.self_delegation addr))
    outcome (self_delegation_of resp)

  -- A validator that is not found is an error to the callers that need it.
  abbrev pub found_or_fail : Option Validator → Outcome Validator
  found_or_fail none = err []
  found_or_fail (some v) = ok v

  abbrev pub amount_of : String → Outcome ℤ
  amount_of text = elim (env.codec.set_string text) [ none ↦ err [] | some n ↦ ok n ]

  unfoldable pub validate_min_self_delegation : String → List ℕ → Action (State X) Done
  validate_min_self_delegation endpoint pub_key = do
    addr ← outcome (cosmos_pubkey_to_evm_address env.codec.curve pub_key)
    found ← get_validator_by_evm_addr endpoint (env.codec.address_text addr)
    v ← outcome (found_or_fail found)
    min ← outcome (amount_of v.min_self_delegation)
    delegated ← get_self_delegation endpoint (env.codec.address_text addr)
    fail_if (below delegated min) []

  -- A rate of four decimal places, among those of 18
  abbrev pub dec_with_prec_4 : ℕ → ℕ
  dec_with_prec_4 n = n * 10 ^ 14

  -- The checks of a new rate against the commission, at a time
  unfoldable pub check_commission : ℕ → ℕ → Validator → Outcome Done
  check_commission now rate v =
      if is_none v.operator_address
      then err []
      else if ltb now (v.update_time + day)
      then err []
      else if ltb v.max_rate (dec_with_prec_4 rate)
      then err []
      else if ltb (v.rate + v.max_change_rate) (dec_with_prec_4 rate)
      then err []
      else ok tt

  unfoldable pub validate_new_commission_rate : String → ℕ → List ℕ → Action (State X) Done
  validate_new_commission_rate endpoint rate pub_key = do
    addr ← outcome (cosmos_pubkey_to_evm_address env.codec.curve pub_key)
    found ← get_validator_by_evm_addr endpoint (env.codec.address_text addr)
    v ← outcome (found_or_fail found)
    now ← gets (λ s. env.node.now s.ext)
    outcome (check_commission now rate v)
