-- ===== src/Queue.antt =====
-- client/collections/queue.go: a queue over two counters and a map, each a store of the chain's
-- state. The counters are `uint64`, and wrap. What a read or write of a store can return besides
-- `ErrNotFound` is left out.
pub mod Represents
pub mod Laws
pub mod Reads
use story.Base.{
  ℕ, zero, suc, ◌+◌, ◌-◌, ◌%◌, Bool, Option, none, some, List, [], ◌∷◌, leb, ◌==◌, if◌then◌else◌,
  u64_mod,
}
use story.Errors.{Error, cause, empty_queue, out_of_bounds_queue, not_found}
use story.Action.{Outcome, ok, err, Action, Done, pure, fail, fail_if, gets, modify, ◌>>=◌, ◌>>◌}

-- An item that was never set has no value.
pub record Queue (T : Type 0) : Type 0 where
  pub front : Option ℕ
  pub rear : Option ℕ
  pub elements : ℕ → Option T

-- The value that Go leaves in the variable when the error of `Get` is dropped.
abbrev pub value_or_zero : Option ℕ → ℕ
value_or_zero none = 0
value_or_zero (some n) = n

-- `Get` of an item or of a map
abbrev pub found : {A : Type 0} → Option A → Outcome A
found none = err (cause not_found ∷ [])
found (some a) = ok a

abbrev pub update : {T : Type 0} → (ℕ → Option T) → ℕ → Option T → ℕ → Option T
update m k v i = if i == k then v else m i

module _ {T : Type 0} where
  unfoldable pub initialize : Action (Queue T) Done
  initialize = do
    modify (λ q. record q { front = some 0 })
    modify (λ q. record q { rear = some 0 })

  unfoldable pub enqueue : T → Action (Queue T) Done
  enqueue elem = do
    rear ← gets (λ q. value_or_zero q.rear)
    modify (λ q. record q { elements = update q.elements rear (some elem) })
    modify (λ q. record q { rear = some ((rear + 1) % u64_mod) })

  -- `Len`
  unfoldable pub len : Queue T → ℕ
  len q = (value_or_zero q.rear + u64_mod - value_or_zero q.front) % u64_mod

  unfoldable pub is_empty : Queue T → Bool
  is_empty q = len q == 0

  unfoldable pub dequeue : Action (Queue T) T
  dequeue = do
    fail_if (← gets is_empty) (cause empty_queue ∷ [])
    front ← gets (λ q. value_or_zero q.front)
    elem ← (λ q. (found (q.elements front), q))
    modify (λ q. record q { elements = update q.elements front none })
    modify (λ q. record q { front = some ((front + 1) % u64_mod) })
    pure elem

  -- `Get`: the index counts from the front.
  unfoldable pub get : Queue T → ℕ → Outcome T
  get q index =
      let at : ℕ = (value_or_zero q.front + index) % u64_mod in
      if leb (value_or_zero q.rear) at
      then err (cause out_of_bounds_queue ∷ [])
      else found (q.elements at)

  unfoldable pub peek : Queue T → Outcome T
  peek q =
      if is_empty q
      then err (cause empty_queue ∷ [])
      else elim q.front [ none ↦ err (cause not_found ∷ []) | some f ↦ found (q.elements f) ]

  -- `Front` and `Rear`
  unfoldable pub front_of : Queue T → Outcome ℕ
  front_of q = found q.front

  unfoldable pub rear_of : Queue T → Outcome ℕ
  rear_of q = found q.rear

  -- The values that a map holds at `n` keys from `k` on, in the order of the keys.
  unfoldable pub range_values : (ℕ → Option T) → ℕ → ℕ → List T
  range_values m k zero = []
  range_values m k (suc n) =
      let rest = range_values m (suc k) n in elim (m k) [ none ↦ rest | some x ↦ x ∷ rest ]

  -- `Iterate`, read to its end: the entries from the front up to the rear
  unfoldable pub iterate : Queue T → List T
  unfolding range_values
  iterate q =
      range_values q.elements (value_or_zero q.front) (value_or_zero q.rear - value_or_zero q.front)
