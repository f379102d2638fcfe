-- ===== src/Queue/Reads.antt =====
-- The reads of a whole queue, and a new queue, against the view as a list.
use story.Base.{ℕ, zero, suc, ◌≤◌, ◌≡◌, refl, ap, ◌∙◌, Option, none, List, [], ◌∷◌, arith, length}
use story.Action.{ok}
use story.Queue.{Queue, initialize, front_of, iterate, range_values}
use story.Queue.Represents.{Represents, slot, slot_front, slot_rest}

module _ {T : Type 0} where
  -- `Initialize` on a store without elements gives the empty queue, numbered from 0.
  pub initialize-Represents :
      (q : Queue T) → ((i : ℕ) → q.elements i ≡ none) → Represents (initialize q).1 0 []
  unfolding initialize
  initialize-Represents q h = record {
    front_eq = refl;
    rear_eq = refl;
    fits = omega arith;
    elems = λ i. h i ∙ ground arith;
  }

  pub front_of-Represents :
      (q : Queue T) (f : ℕ) (xs : List T) → Represents q f xs → front_of q ≡ ok f
  unfolding front_of
  front_of-Represents q f xs r = rw r.front_eq

  range_values_lem :
      (m : ℕ → Option T) (k n : ℕ) (xs : List T)
      → n ≡ length xs
      → ((i : ℕ) → k ≤ i → m i ≡ slot k xs i)
      → range_values m k n ≡ xs
  unfolding range_values
  range_values_lem m k zero [] e h = refl
  range_values_lem m k zero (x ∷ xs) e h = absurd (omega arith)
  range_values_lem m k (suc n) [] e h = absurd (omega arith)
  range_values_lem m k (suc n) (x ∷ xs) e h =
      rw (h k (omega arith) ∙ slot_front k x xs, range_values)
        (ap (◌∷◌ x) (
          range_values_lem m (suc k) n xs (omega arith)
            (λ i le. h i (omega arith) ∙ slot_rest k i x xs (omega arith))))

  -- The iterator yields the entries, oldest first.
  pub iterate-Represents : (q : Queue T) (f : ℕ) (xs : List T) → Represents q f xs → iterate q ≡ xs
  unfolding iterate
  iterate-Represents q f xs r =
      rw (r.front_eq, r.rear_eq)
        (range_values_lem q.elements f _ xs (omega arith) (λ i _. r.elems i))
