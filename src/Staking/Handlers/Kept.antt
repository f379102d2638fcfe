-- ===== src/Staking/Handlers/Kept.antt =====
-- Actions of client/x/evmstaking that leave the addresses a delegator has set.
use text.Mathlib.Text.{◌==◌ as str_eq}
use text.Mathlib.TextEquality.{eq_iff}
use story.Base.{
  ℕ, ◌≡◌, inl, inr, refl, sym, subst, ◌∙◌, Bool, true, false, Bool-cases, Option, String, some,
  none, List, if◌then◌else◌, arith,
}
use story.Errors.{Error}
use story.Action.{
  Outcome, ok, err, panic, Action, Done, map_err, outcome, gets, pure, fail, fail_if, ◌>>=◌, ◌>>◌,
}
use story.Staking.Events.{Event}
use story.Staking.External.{Env}
use story.Staking.State.{State, call, query, insert}
use story.Staking.Handlers.{
  settle, process, validator_address, is_singularity, check_operator, keep_withdraw_address,
  keep_reward_address,
}

-- Addresses that are set stay, and operators neither come nor go.
pub record Kept {X : Type 0} (s t : State X) : Type 0 where
  pub withdraw :
      (k a : String)
      → s.delegator_withdraw_address k ≡ some a
      → t.delegator_withdraw_address k ≡ some a
  pub reward :
      (k a : String) → s.delegator_reward_address k ≡ some a → t.delegator_reward_address k ≡ some a
  pub operator : t.delegator_operator_address ≡ s.delegator_operator_address

pub record Stays {X A : Type 0} (m : Action (State X) A) : Type 0 where
  pub stays : (s : State X) → Kept s (m s).1

module _ {X : Type 0} where
  same : (s : State X) → Kept s s
  same s = record { withdraw = λ k a h. h; reward = λ k a h. h; operator = refl }

  after : {s t u : State X} → Kept s t → Kept t u → Kept s u
  after x y = record {
    withdraw = λ k a h. y.withdraw k a (x.withdraw k a h);
    reward = λ k a h. y.reward k a (x.reward k a h);
    operator = y.operator ∙ x.operator;
  }

module _ {X A : Type 0} where
  pub Stays-outcome : (r : Outcome A) → Stays {X = X} (outcome {S = State X} r)
  Stays-outcome r = record { stays = λ s. same s }

  pub Stays-ok : (a : A) → Stays {X = X} (pure a)
  Stays-ok a = record { stays = λ s. same s }

  pub Stays-fail : (e : Error) → Stays {X = X} {A = A} (fail e)
  Stays-fail e = record { stays = λ s. same s }

  pub Stays-call : (m : Action X A) → Stays (call {X = X} m)
  Stays-call m = record {
    stays = λ s. record { withdraw = λ k a h. h; reward = λ k a h. h; operator = refl };
  }

  pub Stays-query : (f : X → Outcome A) → Stays (query {X = X} f)
  Stays-query f = record { stays = λ s. same s }

  pub Stays-gets : (f : State X → A) → Stays {X = X} (gets f)
  Stays-gets f = record { stays = λ s. same s }

  pub Stays-map_err : (f : Error → Error) (m : Action (State X) A) → Stays m → Stays (map_err f m)
  Stays-map_err f m k = record { stays = λ s. k.stays s }

  pub Stays-if :
      (b : Bool) (m n : Action (State X) A) → Stays m → Stays n → Stays (if b then m else n)
  Stays-if true m n k l = k
  Stays-if false m n k l = l

module _ {X : Type 0} where
  pub Stays-fail_if : (b : Bool) (e : Error) → Stays {X = X} (fail_if b e)
  Stays-fail_if true e = record { stays = λ s. same s }
  Stays-fail_if false e = record { stays = λ s. same s }

module _ {X A B : Type 0} (m : Action (State X) A) (f : A → Action (State X) B) where
  go :
      (s t : State X) (r : Outcome A)
      → ((a : A) → Stays (f a))
      → Kept s t
      → let p : Outcome B × State X = elim r [
        | ok a ↦ f a t
        | err e ↦ (err e, t)
        | panic ↦ (panic, t)
      ] in
        Kept s p.1
  go s t (ok a) l e = after e ((l a).stays t)
  go s t (err x) l e = e
  go s t panic l e = e

  pub Stays-bind : Stays m → ((a : A) → Stays (f a)) → Stays (m >>= f)
  Stays-bind k l = record { stays = λ s. go s (m s).1 (m s).0 l (k.stays s) }

module _ {X A : Type 0} (m : Action (State X) Done) (n : Action (State X) A) where
  pub Stays-then : Stays m → Stays n → Stays (m >> n)
  Stays-then k l = Stays-bind m (λ _. n) k (λ _. l)

insert-fresh :
    (k v j a : String) (m : String → Option String)
    → m k ≡ none
    → m j ≡ some a
    → insert k v m j ≡ some a
insert-fresh k v j a m e h = elim (Bool-cases (str_eq j k)) [
  | inr other ↦ rw other h
  | inl own ↦
      let here : m j ≡ none = subst (λ i. m i ≡ none) (sym ((eq_iff j k).0 own)) e in
      absurd (ground arith)
]

module _ {X : Type 0} (env : Env X) where
  pub keep_withdraw_address-Stays : (a b : String) → Stays (keep_withdraw_address env a b)
  unfolding keep_withdraw_address
  keep_withdraw_address-Stays a b = record {
    stays = λ s. go s (s.delegator_withdraw_address a) refl;
  }
    where
      go :
          (s : State X) (o : Option String)
          → s.delegator_withdraw_address a ≡ o
          → Kept s (elim o [
            | none ↦ record s {
              delegator_withdraw_address = insert a b s.delegator_withdraw_address;
            }
            | some _ ↦ s
          ])
      go s none e = record {
        withdraw = λ k v h. insert-fresh a b k v s.delegator_withdraw_address e h;
        reward = λ k v h. h;
        operator = refl;
      }
      go s (some _) e = same s

  pub keep_reward_address-Stays : (a b : String) → Stays (keep_reward_address env a b)
  unfolding keep_reward_address
  keep_reward_address-Stays a b = record { stays = λ s. go s (s.delegator_reward_address a) refl }
    where
      go :
          (s : State X) (o : Option String)
          → s.delegator_reward_address a ≡ o
          → Kept s (elim o [
            | none ↦ record s { delegator_reward_address = insert a b s.delegator_reward_address }
            | some _ ↦ s
          ])
      go s none e = record {
        withdraw = λ k v h. h;
        reward = λ k v h. insert-fresh a b k v s.delegator_reward_address e h;
        operator = refl;
      }
      go s (some _) e = same s

pub ruleset staying_calls = (
  Stays-outcome, Stays-ok, Stays-fail, Stays-fail_if, Stays-call, Stays-query, Stays-gets,
  Stays-map_err, Stays-if, Stays-bind, Stays-then,
)

module _ {X : Type 0} (env : Env X) where
  pub validator_address-Stays : (key : List ℕ) → Stays (validator_address env key)
  unfolding validator_address
  validator_address-Stays key = search staying_calls

  pub is_singularity-Stays : Stays (is_singularity env)
  unfolding is_singularity
  is_singularity-Stays = search staying_calls

  pub check_operator-Stays : (a b : ℕ) → Stays (check_operator env a b)
  unfolding check_operator
  check_operator-Stays a b = record {
    stays = λ s.
        let e : (check_operator env a b s).1 ≡ s = ground arith in
        subst (λ t. Kept s t) (sym e) (same s);
  }

pub ruleset staying = (
  staying_calls, validator_address-Stays, is_singularity-Stays, check_operator-Stays,
  keep_withdraw_address-Stays, keep_reward_address-Stays,
)

pub process-Stays :
    {X A : Type 0} (success : A → Event) (failure : Error → Event) (body : Action (State X) A)
    → Stays body
    → Stays (process success failure body)
unfolding process settle
process-Stays {X} {A} success failure body k = record {
  stays = λ s. go s (body s).0 (body s).1 (k.stays s);
}
  where
    go :
        (s : State X) (r : Outcome A) (t : State X)
        → Kept s t
        → Kept s (settle success failure s r t).1
    go s (ok a) t x = record { withdraw = x.withdraw; reward = x.reward; operator = x.operator }
    go s (err e) t x = record { withdraw = λ k a h. h; reward = λ k a h. h; operator = refl }
    go s panic t x = record { withdraw = λ k a h. h; reward = λ k a h. h; operator = refl }
