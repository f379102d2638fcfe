-- ===== src/Staking/Handlers.antt =====
-- What the handlers of client/x/evmstaking/keeper share: the cached context with its deferred
-- function, keys, the checks of operator and singularity, and the maps of addresses.
pub mod Addresses
pub mod Deposit
pub mod Create
pub mod Redelegate
pub mod Withdraw
pub mod Unjail
pub mod Commission
pub mod Atomic
pub mod Frames
pub mod Guarded
pub mod Operator
pub mod Kept
pub mod Owned
use text.Mathlib.Text.{◌==◌ as str_eq}
use story.Base.{
  ℕ, ◌+◌, ◌^◌, Bool, true, false, ◌&&◌, String, Option, none, some, List, [], ◌∷◌, length, ltb,
  ◌==◌, if◌then◌else◌,
}
use story.ErrCode
use story.Errors.{Error, Cause, is, wrap_err_with_code, unwrap_err_code}
use story.Action.{
  Outcome, ok, err, panic, Action, Done, pure, fail, gets, modify, outcome, ◌>>=◌, ◌>>◌,
}
use story.Staking.Events.{Event, EventType, Attribute, num, error_code}
use story.Staking.External.{Env}
use story.Staking.State.{State, insert, emit, query}

-- The deferred function, which sees how the body ended, the state before it, and the state of the
-- cached context after it: it recovers a panic, writes the cache of a success, and emits one event.
unfoldable pub settle :
    {X A : Type 0}
    → (A → Event)
    → (Error → Event)
    → State X
    → Outcome A
    → State X
    → Outcome Done × State X
settle success failure before (ok a) after = (ok tt, emit (success a) after)
settle success failure before (err e) after = (err e, emit (failure e) before)
settle success failure before panic after =
    let e = wrap_err_with_code ErrCode.unexpected_condition [] in (err e, emit (failure e) before)

unfoldable pub process :
    {X A : Type 0} → (A → Event) → (Error → Event) → Action (State X) A → Action (State X) Done
process success failure body s = let (r, s') = body s in settle success failure s r s'

abbrev pub event_of : EventType → List Attribute → Event
event_of t xs = record { type = t; attributes = xs }

-- A failure's event carries the code of its error.
abbrev pub failure_of : EventType → List Attribute → Error → Event
failure_of t xs e = record { type = t; attributes = (error_code, num (unwrap_err_code e)) ∷ xs }

-- Which code is joined to which sentinel: the first that `errors.Is` finds.
abbrev pub coded : List (Cause × ℕ) → Error → Error
coded [] e = e
coded ((c, k) ∷ cs) e = if is c e then wrap_err_with_code k e else coded cs e

-- `k1util.PubKeyBytesToCosmos`: a compressed key has 33 bytes.
unfoldable pub pub_key_bytes_to_cosmos : List ℕ → Outcome (List ℕ)
pub_key_bytes_to_cosmos key = if length key == 33 then ok key else err []

module _ {X : Type 0} (env : Env X) where
  -- `PubKeyBytesToCosmos`, then `CosmosPubkeyToEVMAddress`
  unfoldable pub validator_address : List ℕ → Action (State X) ℕ
  validator_address key = do
    pubkey ← outcome (pub_key_bytes_to_cosmos key)
    outcome (env.pubkey_to_address pubkey)

  -- `IsSingularity`, which compares as `int64`
  unfoldable pub is_singularity : Action (State X) Bool
  is_singularity = do
    height ← query env.singularity_height
    pure (ltb height (2 ^ 63) && ltb env.block_height height)

  -- A call on behalf of an account comes from the operator that the account has set.
  unfoldable pub check_operator : ℕ → ℕ → Action (State X) Done
  check_operator account caller =
      if str_eq (env.address_string account) (env.address_string caller) then pure tt else do
        operator ← gets (λ s. s.delegator_operator_address (env.acc_string account))
        elim operator [
          | none ↦ fail (wrap_err_with_code ErrCode.invalid_operator [])
          | some addr ↦
              if str_eq addr (env.address_string caller)
              then pure tt
              else fail (wrap_err_with_code ErrCode.invalid_operator [])
        ]

  -- An address that the delegator has set is not overwritten.
  unfoldable pub keep_withdraw_address : String → String → Action (State X) Done
  keep_withdraw_address k v = modify (λ s. elim (s.delegator_withdraw_address k) [
    | none ↦ record s { delegator_withdraw_address = insert k v s.delegator_withdraw_address }
    | some _ ↦ s
  ])

  unfoldable pub keep_reward_address : String → String → Action (State X) Done
  keep_reward_address k v = modify (λ s. elim (s.delegator_reward_address k) [
    | none ↦ record s { delegator_reward_address = insert k v s.delegator_reward_address }
    | some _ ↦ s
  ])
