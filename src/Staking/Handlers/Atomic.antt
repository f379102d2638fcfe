-- ===== src/Staking/Handlers/Atomic.antt =====
-- A handler either commits what its body did, or leaves everything but its event as it was.
use story.Base.{
  ◌≡◌, refl, ◌∙◌, Bool, true, false, Option, List, ◌∷◌, if◌then◌else◌, String, ℕ, arith,
}
use story.Errors.{Error}
use story.Action.{
  Outcome, ok, err, panic, Action, Done, map_err, outcome, gets, pure, fail, fail_if, ◌>>=◌, ◌>>◌,
}
use story.Queue.{Queue}
use story.Staking.Events.{Event, EventType, Attribute}
use story.Staking.Types.{Withdrawal}
use story.Staking.External.{Env}
use story.Staking.State.{State, emit, call, query}
use story.Staking.Handlers.{
  settle, process, event_of, failure_of, validator_address, is_singularity, check_operator,
  keep_withdraw_address, keep_reward_address,
}

-- What the handlers' bodies leave alone.
pub record Frame : Type 0 where
  pub withdrawal_queue : Queue Withdrawal
  pub reward_withdrawal_queue : Queue Withdrawal
  pub params : Option (List ℕ)
  pub validator_sweep_index : Option (List ℕ)
  pub events : List Event

abbrev pub frame : {X : Type 0} → State X → Frame
frame s = record {
  withdrawal_queue = s.withdrawal_queue;
  reward_withdrawal_queue = s.reward_withdrawal_queue;
  params = s.params;
  validator_sweep_index = s.validator_sweep_index;
  events = s.events;
}

pub record Keeps {X A : Type 0} (m : Action (State X) A) : Type 0 where
  pub keeps : (s : State X) → frame (m s).1 ≡ frame s

module _ {X A : Type 0} where
  pub Keeps-pure : (r : Outcome A) → Keeps {X = X} (outcome {S = State X} r)
  Keeps-pure r = record { keeps = λ s. refl }

  pub Keeps-ok : (a : A) → Keeps {X = X} (pure a)
  Keeps-ok a = record { keeps = λ s. refl }

  pub Keeps-fail : (e : Error) → Keeps {X = X} {A = A} (fail e)
  Keeps-fail e = record { keeps = λ s. refl }

  pub Keeps-call : (m : Action X A) → Keeps (call {X = X} m)
  Keeps-call m = record { keeps = λ s. refl }

  pub Keeps-query : (f : X → Outcome A) → Keeps (query {X = X} f)
  Keeps-query f = record { keeps = λ s. refl }

  pub Keeps-gets : (f : State X → A) → Keeps {X = X} (gets f)
  Keeps-gets f = record { keeps = λ s. refl }

  pub Keeps-map_err : (f : Error → Error) (m : Action (State X) A) → Keeps m → Keeps (map_err f m)
  Keeps-map_err f m k = record { keeps = λ s. k.keeps s }

  pub Keeps-if :
      (b : Bool) (m n : Action (State X) A) → Keeps m → Keeps n → Keeps (if b then m else n)
  Keeps-if true m n k l = k
  Keeps-if false m n k l = l

module _ {X : Type 0} where
  pub Keeps-fail_if : (b : Bool) (e : Error) → Keeps {X = X} (fail_if b e)
  Keeps-fail_if true e = record { keeps = λ s. refl }
  Keeps-fail_if false e = record { keeps = λ s. refl }

module _ {X A B : Type 0} (m : Action (State X) A) (f : A → Action (State X) B) where
  go :
      (s t : State X) (r : Outcome A)
      → ((a : A) → Keeps (f a))
      → frame t ≡ frame s
      → let p : Outcome B × State X = elim r [
        | ok a ↦ f a t
        | err e ↦ (err e, t)
        | panic ↦ (panic, t)
      ] in
        frame p.1 ≡ frame s
  go s t (ok a) l e = (l a).keeps t ∙ e
  go s t (err x) l e = e
  go s t panic l e = e

  pub Keeps-bind : Keeps m → ((a : A) → Keeps (f a)) → Keeps (m >>= f)
  Keeps-bind k l = record { keeps = λ s. go s (m s).1 (m s).0 l (k.keeps s) }

module _ {X A : Type 0} (m : Action (State X) Done) (n : Action (State X) A) where
  pub Keeps-then : Keeps m → Keeps n → Keeps (m >> n)
  Keeps-then k l = Keeps-bind m (λ _. n) k (λ _. l)

pub ruleset keeping = (
  Keeps-pure, Keeps-ok, Keeps-fail, Keeps-fail_if, Keeps-call, Keeps-query, Keeps-gets,
  Keeps-map_err, Keeps-if, Keeps-bind, Keeps-then,
)

module _ {X : Type 0} (env : Env X) where
  pub validator_address-Keeps : (key : List ℕ) → Keeps (validator_address env key)
  unfolding validator_address
  validator_address-Keeps key = search keeping

  pub is_singularity-Keeps : Keeps (is_singularity env)
  unfolding is_singularity
  is_singularity-Keeps = search keeping

  pub check_operator-Keeps : (a b : ℕ) → Keeps (check_operator env a b)
  unfolding check_operator
  check_operator-Keeps a b = record { keeps = λ s. ground arith }

  pub keep_withdraw_address-Keeps : (a b : String) → Keeps (keep_withdraw_address env a b)
  unfolding keep_withdraw_address
  keep_withdraw_address-Keeps a b = record { keeps = λ s. ground arith }

  pub keep_reward_address-Keeps : (a b : String) → Keeps (keep_reward_address env a b)
  unfolding keep_reward_address
  keep_reward_address-Keeps a b = record { keeps = λ s. ground arith }

pub ruleset framing = (
  keeping, validator_address-Keeps, is_singularity-Keeps, check_operator-Keeps,
  keep_withdraw_address-Keeps, keep_reward_address-Keeps,
)

-- How a handler may end: a success keeps the frame but for one event; a failure keeps all but one
-- event, which carries the code of the error.
pub data Ends {X : Type 0} (good bad : EventType) (s : State X)
    : Outcome Done → State X → Type 0 where
  done :
      {t : State X} (e : Event)
      → e.type ≡ good
      → frame t ≡ record (frame s) { events = e ∷ s.events }
      → Ends good bad s (ok tt) t
  failed :
      (x : Error) (xs : List Attribute) → Ends good bad s (err x) (emit (failure_of bad xs x) s)

pub process_ends :
    {X A : Type 0} (good bad : EventType) (body : Action (State X) A) (ys : A → List Attribute)
    (xs : List Attribute) (s : State X)
    → Keeps body
    → Ends good bad s
        (process (λ a. event_of good (ys a)) (failure_of bad xs) body s).0
        (process (λ a. event_of good (ys a)) (failure_of bad xs) body s).1
unfolding process settle
process_ends {X} {A} good bad body ys xs s k = go (body s).0 (body s).1 (k.keeps s)
  where
    go :
        (r : Outcome A) (t : State X)
        → frame t ≡ frame s
        → let p = settle (λ a. event_of good (ys a)) (failure_of bad xs) s r t in
          Ends good bad s p.0 p.1
    go (ok a) t e =
        done (event_of good (ys a)) refl
          (λ i. record (e i) { events = event_of good (ys a) ∷ (e i).events })
    go (err x) t e = failed x xs
    go panic t e = failed _ xs
