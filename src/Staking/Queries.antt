-- ===== src/Staking/Queries.antt =====
-- client/x/evmstaking/keeper/grpc_query.go: the answers to clients. `none` is a request that is nil, and
-- the page of a queue is the SDK's, which takes the queue's elements.
pub mod Current
use story.Base.{ℕ, String, Option, none, some, List, [], ◌∷◌}
use story.Action.{Outcome, ok, err, panic}
use story.Queue.{Queue}
use story.Staking.Types.{Withdrawal, Params}
use story.Staking.External.{Env}
use story.Staking.Params.{read_params}
use story.Staking.State.{State, AddressMap}

-- `GenericFilteredPaginate` over the elements of a queue, at a request for a page
pub record Pages : Type 1 where
  pub PageRequest : Type 0
  pub PageResponse : Type 0
  pub paginate :
      (ℕ → Option Withdrawal)
      → Option PageRequest
      → Outcome (List (Option Withdrawal) × PageResponse)

-- The copies of the entries; a nil entry is a panic.
abbrev pub copies : List (Option Withdrawal) → Outcome (List Withdrawal)
copies [] = ok []
copies (none ∷ ws) = panic
copies (some w ∷ ws) =
    let rest = copies ws in
    elim rest [
      | ok us ↦ ok (
          record {
            creation_height = w.creation_height;
            execution_address = w.execution_address;
            amount = w.amount;
            withdrawal_type = w.withdrawal_type;
            validator_address = w.validator_address;
          }
          ∷ us)
      | err e ↦ err e
      | panic ↦ panic
    ]

-- The address that is set, or the empty text
abbrev pub address_or_empty : AddressMap → Option String → Outcome String
address_or_empty m none = err []
address_or_empty m (some k) = elim (m k) [ none ↦ ok "" | some a ↦ ok a ]

module _ {X : Type 0} where
  -- The query of the parameters
  unfoldable pub query_params : Env X → Option (Unit {0}) → State X → Outcome Params
  query_params env none s = err []
  query_params env (some _) s = read_params env s

  unfoldable pub get_operator_address : Option String → State X → Outcome String
  get_operator_address request s = address_or_empty s.delegator_operator_address request

  unfoldable pub get_withdraw_address : Option String → State X → Outcome String
  get_withdraw_address request s = address_or_empty s.delegator_withdraw_address request

  unfoldable pub get_reward_address : Option String → State X → Outcome String
  get_reward_address request s = address_or_empty s.delegator_reward_address request

module _ (pages : Pages) where
  unfoldable pub paginate_withdrawal_queue :
      Option pages.PageRequest → Queue Withdrawal → Outcome (List Withdrawal × pages.PageResponse)
  paginate_withdrawal_queue page q = elim (pages.paginate q.elements page) [
    | err e ↦ err e
    | panic ↦ panic
    | ok (ws, resp) ↦ elim (copies ws) [ ok us ↦ ok (us, resp) | err e ↦ err e | panic ↦ panic ]
  ]

  module _ {X : Type 0} where
    unfoldable pub get_withdrawal_queue :
        Option (Option pages.PageRequest) → State X → Outcome (List Withdrawal × pages.PageResponse)
    get_withdrawal_queue none s = err []
    get_withdrawal_queue (some page) s = paginate_withdrawal_queue page s.withdrawal_queue

    unfoldable pub get_reward_withdrawal_queue :
        Option (Option pages.PageRequest) → State X → Outcome (List Withdrawal × pages.PageResponse)
    get_reward_withdrawal_queue none s = err []
    get_reward_withdrawal_queue (some page) s =
        paginate_withdrawal_queue page s.reward_withdrawal_queue
