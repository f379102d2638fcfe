-- ===== src/Staking/Queries/Current.antt =====
-- What clients are told after a delegator has set its addresses.
use text.Mathlib.Text.{◌==◌ as str_eq}
use text.Mathlib.TextEquality.{eq_iff}
use story.Base.{◌≡◌, refl, true, String, some}
use story.Action.{ok}
use story.Staking.Types.{SetAddress, SetOperator, UnsetOperator}
use story.Staking.External.{Env}
use story.Staking.State.{State, AddressMap, insert, erase}
use story.Staking.Handlers.{process, settle}
use story.Staking.Handlers.Addresses.{
  process_set_withdrawal_address, process_set_reward_address, process_set_operator,
  process_unset_operator,
}
use story.Staking.Queries.{
  address_or_empty, get_operator_address, get_withdraw_address, get_reward_address,
}

itself : (k : String) → str_eq k k ≡ true
itself k = (eq_iff k k).1 refl

inserted : (k v : String) (m : AddressMap) → address_or_empty (insert k v m) (some k) ≡ ok v
inserted k v m = rw (itself k, address_or_empty) refl

erased : (k : String) (m : AddressMap) → address_or_empty (erase k m) (some k) ≡ ok ""
erased k m = rw (itself k, address_or_empty) refl

module _ {X : Type 0} (env : Env X) (s : State X) where
  -- After a delegator's request to set its withdrawal address, its reward address or its operator, the
  -- query of each answers what was set, and after the operator is unset, the empty text.
  pub queries_after :
      (a : SetAddress) (o : SetOperator) (u : UnsetOperator)
      → (get_withdraw_address
            (some (env.acc_string a.delegator))
            (process_set_withdrawal_address env a s).1
          ≡ ok (env.address_string (env.bytes_to_address a.execution_address)))
        × (get_reward_address
              (some (env.acc_string a.delegator))
              (process_set_reward_address env a s).1
            ≡ ok (env.address_string (env.bytes_to_address a.execution_address)))
        × (get_operator_address (some (env.acc_string o.delegator)) (process_set_operator env o s).1
            ≡ ok (env.address_string o.operator))
        × (get_operator_address
              (some (env.acc_string u.delegator))
              (process_unset_operator env u s).1
            ≡ ok "")
  unfolding process settle process_set_withdrawal_address process_set_reward_address
      process_set_operator process_unset_operator get_operator_address get_withdraw_address
      get_reward_address
  queries_after a o u = (
    inserted (env.acc_string a.delegator)
        (env.address_string (env.bytes_to_address a.execution_address))
        s.delegator_withdraw_address,
    inserted (env.acc_string a.delegator)
        (env.address_string (env.bytes_to_address a.execution_address)) s.delegator_reward_address,
    inserted (env.acc_string o.delegator) (env.address_string o.operator)
        s.delegator_operator_address,
    erased (env.acc_string u.delegator) s.delegator_operator_address,
  )
