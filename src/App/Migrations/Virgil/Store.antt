-- ===== src/App/Migrations/Virgil/Store.antt =====
-- The store of the delegations that the handler of Virgil moves: what is read after a write.
use story.Base.{ℕ, ◌≡◌, refl, sym, ap, ◌∙◌, String, List, [], ◌∷◌, ◌==◌, if◌then◌else◌}
use story.Action.{Outcome, ok, err, panic}
use story.App.Migrations.Staking.{StakingTypes, Params, PeriodDelegation, StakingKeeper}
use story.App.Migrations.Virgil.{moved}

module _ {T : StakingTypes} {X : Type 0} (keeper : StakingKeeper T X) where
  -- Two delegations under one key of the store
  abbrev pub SameKey : PeriodDelegation T → PeriodDelegation T → Type 0
  SameKey d e =
      (keeper.acc_from_bech32 d.delegator_address ≡ keeper.acc_from_bech32 e.delegator_address)
      × (keeper.val_from_bech32 d.validator_address ≡ keeper.val_from_bech32 e.validator_address)
      × (d.period_delegation_id ≡ e.period_delegation_id)

  abbrev pub Fresh : PeriodDelegation T → List (PeriodDelegation T) → Type 0
  Fresh d [] = Unit {0}
  Fresh d (e ∷ ds) = (¬ SameKey d e) × Fresh d ds

  abbrev pub Distinct : List (PeriodDelegation T) → Type 0
  Distinct [] = Unit {0}
  Distinct (d ∷ ds) = Fresh d ds × Distinct ds

  -- The store of the staking module: what is set is read, and nothing else changes.
  pub record Store : Type 0 where
    pub keys :
        (x : X) (ds : List (PeriodDelegation T))
        → keeper.get_all_period_delegations x ≡ ok ds
        → Distinct ds
    pub params_read :
        (p : Params T) (x y : X) → keeper.set_params p x ≡ (ok tt, y) → keeper.get_params y ≡ ok p
    pub params_keep :
        (p : Params T) (x y : X)
        → keeper.set_params p x ≡ (ok tt, y)
        → (keeper.get_all_period_delegations y ≡ keeper.get_all_period_delegations x)
          × ((a b : ℕ) (i : String)
              → keeper.get_period_delegation a b i y ≡ keeper.get_period_delegation a b i x)
    pub delegation_read :
        (a b : ℕ) (d : PeriodDelegation T) (x y : X)
        → keeper.set_period_delegation a b d x ≡ (ok tt, y)
        → keeper.get_period_delegation a b d.period_delegation_id y ≡ ok d
    pub delegation_keeps :
        (a b : ℕ) (d : PeriodDelegation T) (x y : X)
        → keeper.set_period_delegation a b d x ≡ (ok tt, y)
        → (keeper.get_params y ≡ keeper.get_params x)
          × ((a' b' : ℕ) (i : String)
              → ¬ ((a ≡ a') × (b ≡ b') × (d.period_delegation_id ≡ i))
              → keeper.get_period_delegation a' b' i y ≡ keeper.get_period_delegation a' b' i x)

  abbrev pub find : Outcome ℕ → Outcome ℕ → String → X → Outcome (PeriodDelegation T)
  find (err e) val i x = err e
  find panic val i x = panic
  find (ok a) (err e) i x = err e
  find (ok a) panic i x = panic
  find (ok a) (ok b) i x = keeper.get_period_delegation a b i x

  -- A delegation as the store has it
  abbrev pub read : PeriodDelegation T → X → Outcome (PeriodDelegation T)
  read d x =
      find (keeper.acc_from_bech32 d.delegator_address) (keeper.val_from_bech32 d.validator_address)
        d.period_delegation_id x

  -- Every short delegation of the list is stored with its end moved, and every other is as before.
  abbrev pub Moved : ℕ → X → X → List (PeriodDelegation T) → Type 0
  Moved shift s t [] = Unit {0}
  Moved shift s t (d ∷ ds) =
      (read d t ≡ (if d.period_type == 1 then ok (moved T shift d) else read d s))
      × Moved shift s t ds

module _ {T : StakingTypes} {X : Type 0} (keeper : StakingKeeper T X) (store : Store keeper) where
  -- A step that leaves the parameters, and every delegation that is apart from `d`
  abbrev pub Keeps : PeriodDelegation T → X → X → Type 0
  Keeps d x y =
      (keeper.get_params y ≡ keeper.get_params x)
      × ((e : PeriodDelegation T) → ¬ SameKey keeper d e → read keeper e y ≡ read keeper e x)

  pub read_eq :
      (d : PeriodDelegation T) (a b : ℕ) (x : X)
      → keeper.acc_from_bech32 d.delegator_address ≡ ok a
      → keeper.val_from_bech32 d.validator_address ≡ ok b
      → read keeper d x ≡ keeper.get_period_delegation a b d.period_delegation_id x
  read_eq d a b x acc val = λ j. find keeper (acc j) (val j) d.period_delegation_id x

  pub find_same :
      (i : String) (x y : X) (r q : Outcome ℕ)
      → ((a b : ℕ)
          → r ≡ ok a
          → q ≡ ok b
          → keeper.get_period_delegation a b i y ≡ keeper.get_period_delegation a b i x)
      → find keeper r q i y ≡ find keeper r q i x
  find_same i x y (ok a) (ok b) same = same a b refl refl
  find_same i x y (ok a) (err e) same = refl
  find_same i x y (ok a) panic same = refl
  find_same i x y (err e) q same = refl
  find_same i x y panic q same = refl

  -- A read that a store does not change, under another key
  pub read_same :
      (a b : ℕ) (d e : PeriodDelegation T) (x y : X)
      → keeper.acc_from_bech32 d.delegator_address ≡ ok a
      → keeper.val_from_bech32 d.validator_address ≡ ok b
      → keeper.set_period_delegation a b d x ≡ (ok tt, y)
      → ¬ SameKey keeper d e
      → read keeper e y ≡ read keeper e x
  read_same a b d e x y acc val stored apart =
      find_same e.period_delegation_id x y (keeper.acc_from_bech32 e.delegator_address)
        (keeper.val_from_bech32 e.validator_address)
        (λ a' b' acc' val'.
          (store.delegation_keeps a b d x y stored).1 a' b' e.period_delegation_id (λ same. apart (
            acc ∙ ap (λ n. ok n) same.0 ∙ sym acc',
            val ∙ ap (λ n. ok n) same.1 ∙ sym val',
            same.2,
          )))

  pub apart_sym : (d e : PeriodDelegation T) → ¬ SameKey keeper d e → ¬ SameKey keeper e d
  apart_sym d e apart same = apart (sym same.0, sym same.1, sym same.2)
