-- ===== src/Staking/Handlers/Operator.antt =====
-- Who may act for an account: withdraw, redelegate and unjail check the operator.
use text.Mathlib.Text.{◌==◌ as str_eq}
use story.Base.{
  ℕ, ◌≡◌, ◌⊎◌, inl, inr, refl, sym, subst, ap, ◌∙◌, Bool, Bool-cases, true, false, String, Option,
  none, some, List, [], if◌then◌else◌, arith,
}
use story.ErrCode
use story.Errors.{wrap_err_with_code}
use story.Action.{Outcome, ok, err, panic, Action, Done, pure, fail, ◌>>=◌}
use story.Action.Laws.{bind_ok}
use story.Staking.Types
use story.Staking.External.{Env}
use story.Staking.State.{State}
use story.Staking.Handlers.Guarded.{
  process_ok, Reads, Needs, Needs-here, Needs-first, Needs-later, Reads-outcome,
}
use story.Staking.Handlers.{validator_address, is_singularity, check_operator}
use story.Staking.Handlers.Redelegate.{redelegate_body, redelegate_after, process_redelegate}
use story.Staking.Handlers.Withdraw.{withdraw_body, withdraw_after, process_withdraw}
use story.Staking.Handlers.Unjail.{unjail_body, unjail_as, process_unjail}
use story.Staking.Handlers.Frames.{Request, handle}

-- The caller is the account itself, or the operator that it has set.
abbrev pub MayAct : {X : Type 0} → Env X → State X → ℕ → ℕ → Type 0
MayAct env s account caller =
    (str_eq (env.address_string account) (env.address_string caller) ≡ true)
    ⊎ ((operator : String) × (s.delegator_operator_address (env.acc_string account) ≡ some operator)
        × (str_eq operator (env.address_string caller) ≡ true))

module _ {X : Type 0} (env : Env X) where
  -- What is left of the check once the operator is read
  abbrev checked : ℕ → Option String → Action (State X) Done
  checked caller operator = elim operator [
    | none ↦ fail (wrap_err_with_code ErrCode.invalid_operator [])
    | some addr ↦
        if str_eq addr (env.address_string caller)
        then pure tt
        else fail (wrap_err_with_code ErrCode.invalid_operator [])
  ]

  module _ (account caller : ℕ) (s t : State X) where
    checked-MayAct :
        (o : Option String)
        → s.delegator_operator_address (env.acc_string account) ≡ o
        → checked caller o s ≡ (ok tt, t)
        → MayAct env s account caller
    checked-MayAct none e h = ground arith
    checked-MayAct (some operator) e h =
        elim (Bool-cases (str_eq operator (env.address_string caller))) [
          | inl same ↦ inr (operator, e, same)
          | inr other ↦ let h' = rw other at h in ground arith
        ]

    check_operator-MayAct :
        check_operator env account caller s ≡ (ok tt, t) → MayAct env s account caller
    unfolding check_operator
    check_operator-MayAct h =
        elim (Bool-cases (str_eq (env.address_string account) (env.address_string caller))) [
          | inl e ↦ inl e
          | inr e ↦
              checked-MayAct (s.delegator_operator_address (env.acc_string account)) refl
                (rw e at h)
        ]

  check_operator-Needs :
      (account caller : ℕ)
      → Needs (λ s. MayAct env s account caller) (check_operator env account caller)
  check_operator-Needs account caller = record {
    needs = λ s t a h. check_operator-MayAct account caller s t h;
  }

  validator_address-Reads : (key : List ℕ) → Reads (validator_address env key)
  unfolding validator_address
  validator_address-Reads key = record { reads = λ s. ground arith }

  -- Each body checks the operator before it writes.
  ruleset checking = (
    Needs-here, Needs-first, Needs-later, check_operator-Needs, validator_address-Reads,
    Reads-outcome,
  )

  withdraw_after-Needs :
      (ev : Types.Withdraw)
      → Needs (λ s. MayAct env s ev.delegator ev.operator_address) (withdraw_after env ev)
  unfolding withdraw_after
  withdraw_after-Needs ev = search checking

  redelegate_after-Needs :
      (ev : Types.Redelegate)
      → Needs (λ s. MayAct env s ev.delegator ev.operator_address) (redelegate_after env ev)
  unfolding redelegate_after
  redelegate_after-Needs ev = search checking depth 12

  unjail_as-Needs :
      (ev : Types.Unjail) (val : ℕ)
      → Needs (λ s. MayAct env s val ev.unjailer) (unjail_as env ev val)
  unfolding unjail_as
  unjail_as-Needs ev val = search checking

  -- After the singularity, what a body does then has been done.
  late :
      (after : Action (State X) String) (s : State X) (a : String)
      → (is_singularity env s).0 ≡ ok false
      → ((is_singularity env >>= λ early. if early then pure "" else after) s).0 ≡ ok a
      → (after (is_singularity env s).1).0 ≡ ok a
  late after s a e h = go (is_singularity env s).0 e h
    where
      go :
          (r : Outcome Bool)
          → r ≡ ok false
          → (let p : Outcome String × State X = elim r [
            | ok early ↦ (if early then pure "" else after) (is_singularity env s).1
            | err e ↦ (err e, (is_singularity env s).1)
            | panic ↦ (panic, (is_singularity env s).1)
          ] in
              p.0)
            ≡ ok a
          → (after (is_singularity env s).1).0 ≡ ok a
      go (ok true) e h = ground arith
      go (ok false) e h = h
      go (err x) e h = ground arith
      go panic e h = ground arith

  is_singularity-Reads : Reads (is_singularity env)
  unfolding is_singularity
  is_singularity-Reads = record { reads = λ s. ground arith }

  late-MayAct :
      (after : Action (State X) String) (account caller : ℕ) (s : State X) (a : String)
      → Needs (λ s. MayAct env s account caller) after
      → (is_singularity env s).0 ≡ ok false
      → ((is_singularity env >>= λ early. if early then pure "" else after) s).0 ≡ ok a
      → MayAct env s account caller
  late-MayAct after account caller s a n e h =
      let t = (is_singularity env s).1 in
      subst (λ u. MayAct env u account caller) (is_singularity-Reads.reads s)
        (n.needs t (after t).1 a (λ i. (late after s a e h i, (after t).1)))

  -- On whose behalf an event acts, and who sent it. Before the singularity a delegation is not touched.
  pub data OnBehalf (s : State X) : Request → ℕ → ℕ → Type 0 where
    withdraw :
        (ev : Types.Withdraw)
        → (is_singularity env s).0 ≡ ok false
        → OnBehalf s (Request.withdraw ev) ev.delegator ev.operator_address
    redelegate :
        (ev : Types.Redelegate)
        → (is_singularity env s).0 ≡ ok false
        → OnBehalf s (Request.redelegate ev) ev.delegator ev.operator_address
    unjail :
        (ev : Types.Unjail) (val : ℕ)
        → (validator_address env ev.validator_cmp_pubkey s).0 ≡ ok val
        → OnBehalf s (Request.unjail ev) val ev.unjailer

  -- A withdrawal or redelegation after the singularity that succeeds was sent by the delegator or by
  -- the operator that the delegator has set, and an unjailing by the validator or its operator.
  pub handle-MayAct :
      (req : Request) (account caller : ℕ) (s : State X)
      → OnBehalf s req account caller
      → (handle env req s).0 ≡ ok tt
      → MayAct env s account caller
  unfolding process_withdraw process_redelegate process_unjail withdraw_body redelegate_body
      unjail_body
  handle-MayAct req account caller s (withdraw ev e) h =
      let (a, done) = process_ok _ _ (withdraw_body env ev) s h in
      late-MayAct (withdraw_after env ev) ev.delegator ev.operator_address s a
        (withdraw_after-Needs ev) e done
  handle-MayAct req account caller s (redelegate ev e) h =
      let (a, done) = process_ok _ _ (redelegate_body env ev) s h in
      late-MayAct (redelegate_after env ev) ev.delegator ev.operator_address s a
        (redelegate_after-Needs ev) e done
  handle-MayAct req account caller s (unjail ev val e) h =
      let (a, done) = process_ok _ _ (unjail_body env ev) s h in
      let known : validator_address env ev.validator_cmp_pubkey s ≡ (ok val, s) =
        λ i. (e i, (validator_address-Reads ev.validator_cmp_pubkey).reads s i) in
      let same : unjail_body env ev s ≡ unjail_as env ev val s =
        bind_ok (validator_address env ev.validator_cmp_pubkey) (unjail_as env ev) s s val known in
      (unjail_as-Needs ev val).needs s (unjail_as env ev val s).1 a
        (λ i. ((ap (λ p. p.0) (sym same) ∙ done) i, (unjail_as env ev val s).1))
