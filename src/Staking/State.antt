-- ===== src/Staking/State.antt =====
-- The stores of the module (client/x/evmstaking/keeper/keeper.go), the events emitted so far, newest
-- first, and the state of the modules that it calls, which do not write its stores.
use story.Base.{ℕ, String, Option, none, some, List, ◌∷◌, if◌then◌else◌}
use text.Mathlib.Text.{◌==◌ as str_eq}
use story.Action.{Outcome, Action}
use story.Queue.{Queue}
use story.Staking.Events.{Event}
use story.Staking.Types.{Withdrawal}

-- A map keyed by bech32 addresses
abbrev pub AddressMap : Type 0
AddressMap = String → Option String

abbrev pub insert : String → String → AddressMap → AddressMap
insert k v m j = if str_eq j k then some v else m j

abbrev pub erase : String → AddressMap → AddressMap
erase k m j = if str_eq j k then none else m j

pub record State (X : Type 0) : Type 0 where
  pub withdrawal_queue : Queue Withdrawal
  pub reward_withdrawal_queue : Queue Withdrawal
  pub delegator_withdraw_address : AddressMap
  pub delegator_reward_address : AddressMap
  pub delegator_operator_address : AddressMap
  -- the store's value at `ParamsKey`
  pub params : Option (List ℕ)
  -- the store's value at `ValidatorSweepIndexKey`
  pub validator_sweep_index : Option (List ℕ)
  pub events : List Event
  pub ext : X

module _ {X A : Type 0} where
  -- A call of another module.
  abbrev pub call : Action X A → Action (State X) A
  call m s = let (r, x) = m s.ext in (r, record s { ext = x })

  abbrev pub query : (X → Outcome A) → Action (State X) A
  query f s = (f s.ext, s)

  abbrev pub on_withdrawals : Action (Queue Withdrawal) A → Action (State X) A
  on_withdrawals m s = let (r, q) = m s.withdrawal_queue in (r, record s { withdrawal_queue = q })

  abbrev pub on_rewards : Action (Queue Withdrawal) A → Action (State X) A
  on_rewards m s =
      let (r, q) = m s.reward_withdrawal_queue in (r, record s { reward_withdrawal_queue = q })

abbrev pub emit : {X : Type 0} → Event → State X → State X
emit e s = record s { events = e ∷ s.events }
