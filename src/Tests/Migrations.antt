-- ===== src/Tests/Migrations.antt =====
-- The upgrades' handlers on a store of two delegations.
use text.Mathlib.Text.{◌==◌ as str_eq}
use text.Mathlib.TextEquality.{eq_iff}
use story.Base.{
  ℕ, ◌≡◌, refl, sym, ap, subst, ◌∙◌, Bool, true, false, ◌&&◌, Bool-cases, inl, inr, String, some,
  List, [], ◌∷◌, map, ◌==◌, ==_iff, sub_int64, if◌then◌else◌, arith,
}
use story.Action.{Outcome, ok, err, panic}
use story.App.Forks.{virgil_upgrade_height}
use story.App.Migrations.Consensus.{
  ConsensusTypes, BlockParams, ConsensusParams, ConsensusKeeper, new_block, update_msg,
  compare_params, upgrade_v_1_2_0,
}
use story.App.Migrations.Consensus.Kept.{Sound, upgrade_v_1_2_0-Kept}
use story.App.Migrations.Staking.{StakingTypes, Params, PeriodDelegation, StakingKeeper}
use story.App.Migrations.Virgil.{
  update_period, rewards_multipliers, old_short_period_duration, new_short_period_duration,
  upgrade_virgil, move_delegation, move_delegations, migrate_periods, migrate_delegations,
  check_period, check_periods,
}
use story.App.Migrations.Virgil.Store.{SameKey, Distinct, Store, Moved}
use story.App.Migrations.Virgil.Moved.{upgrade_virgil-Moved}

-- A map of versions
abbrev versions : ℕ
versions = 3

abbrev types : StakingTypes
types = record {
  LegacyDec = ℕ;
  new_dec_with_prec = λ n p. n;
  dec_equal = λ a b. a == b;
  OtherParams = Unit {0};
}

abbrev Delegations : Type 0
Delegations = ℕ → ℕ → String → Outcome (PeriodDelegation types)

abbrev World : Type 0
World = Params types × Delegations

abbrev delegation : String → ℕ → PeriodDelegation types
delegation id kind = record {
  delegator_address = "del";
  validator_address = "val";
  period_delegation_id = id;
  period_type = kind;
  shares = 1;
  rewards_shares = 1;
  end_time = 1000;
}

abbrev both : List (PeriodDelegation types)
both = delegation "a" 1 ∷ delegation "b" 2 ∷ []

abbrev put :
    Bool
    → PeriodDelegation types
    → Outcome (PeriodDelegation types)
    → Outcome (PeriodDelegation types)
put true d old = ok d
put false d old = old

abbrev hit : ℕ → ℕ → String → ℕ → ℕ → String → Bool
hit a b i a' b' i' = a == a' && (b == b' && str_eq i i')

abbrev keeper : StakingKeeper types World
keeper = record {
  get_params = λ w. ok w.0;
  set_params = λ p w. (ok tt, (p, w.1));
  params_equal = λ p q. true;
  get_all_period_delegations = λ w. ok both;
  set_period_delegation = λ a b d w.
      (ok tt, (w.0, λ a' b' i. put (hit a b d.period_delegation_id a' b' i) d (w.1 a' b' i)));
  get_period_delegation = λ a b i w. w.1 a b i;
  acc_from_bech32 = λ _. ok 1;
  val_from_bech32 = λ _. ok 2;
}

hit_same : (a b : ℕ) (i : String) → hit a b i a b i ≡ true
hit_same a b i = rw ((==_iff a a).1 refl, (==_iff b b).1 refl, (eq_iff i i).1 refl) refl

hit_other :
    (a b : ℕ) (i : String) (a' b' : ℕ) (i' : String)
    → ¬ ((a ≡ a') × (b ≡ b') × (i ≡ i'))
    → hit a b i a' b' i' ≡ false
hit_other a b i a' b' i' apart = elim (Bool-cases (a == a')) [
  | inr x ↦ rw x refl
  | inl x ↦ elim (Bool-cases (b == b')) [
    | inr y ↦ rw (x, y) refl
    | inl y ↦ elim (Bool-cases (str_eq i i')) [
      | inr z ↦ rw (x, y, z) refl
      | inl z ↦ absurd (apart ((==_iff a a').0 x, (==_iff b b').0 y, (eq_iff i i').0 z))
    ]
  ]
]

abbrev before : World
before = (
  record {
    periods = record { period_type = 1; duration = 5; rewards_multiplier = 9 } ∷ [];
    max_validators = 64;
    other = tt;
  },
  λ a b i. if str_eq i "a" then ok (delegation "a" 1) else ok (delegation "b" 2),
)

keys_differ : ¬ SameKey keeper (delegation "a" 1) (delegation "b" 2)
keys_differ same =
    let (_, _, ids) = same in let h : str_eq "a" "b" ≡ true = (eq_iff "a" "b").1 ids in ground arith

listed : (ds : List (PeriodDelegation types)) → ok both ≡ ok ds → both ≡ ds
listed ds h = ap (λ o. elim o [ ok a ↦ a | err e ↦ both | panic ↦ both ]) h

store : Store keeper
store = record {
  keys = λ x ds h. subst (Distinct keeper) (listed ds h) ((keys_differ, tt), (tt, tt));
  params_read = λ p x y h. λ i. ok (sym h i).1.0;
  params_keep = λ p x y h. (refl, λ a b k. λ i. (sym h i).1.1 a b k);
  delegation_read = λ a b d x y h.
      (λ i. (sym h i).1.1 a b d.period_delegation_id)
      ∙ ap (λ c. put c d (x.1 a b d.period_delegation_id)) (hit_same a b d.period_delegation_id);
  delegation_keeps = λ a b d x y h. (
    λ i. ok (sym h i).1.0,
    λ a' b' k apart.
        (λ i. (sym h i).1.1 a' b' k)
        ∙ ap (λ c. put c d (x.1 a' b' k)) (hit_other a b d.period_delegation_id a' b' k apart),
  );
}

-- The state after the handler
abbrev migrated : World
migrated = (upgrade_virgil keeper "story-1" versions before).1

upgrade_virgil-Moved_example :
    (versions ≡ versions)
    × (params : Params types) × (ds : List (PeriodDelegation types)) × (keeper.get_params before
        ≡ ok params)
    × (keeper.get_all_period_delegations before ≡ ok ds)
    × (keeper.get_params migrated
        ≡ ok (record params {
          periods = map (update_period types (rewards_multipliers types "story-1")) params.periods;
        }))
    × Moved keeper
        (sub_int64 new_short_period_duration (old_short_period_duration types 0 params.periods))
        before
        migrated
        ds
unfolding upgrade_virgil virgil_upgrade_height move_delegation move_delegations migrate_periods
    migrate_delegations check_period check_periods update_period rewards_multipliers
    old_short_period_duration sub_int64
upgrade_virgil-Moved_example =
    upgrade_virgil-Moved keeper store "story-1" 809988 versions versions before migrated refl refl

abbrev opaque : ConsensusTypes
opaque = record {
  EvidenceParams = ℕ;
  ValidatorParams = ℕ;
  AbciParams = ℕ;
  evidence_equal = λ a b. a == b;
  validator_equal = λ a b. a == b;
  abci_equal = λ a b. a == b;
}

sound : Sound opaque
sound = record {
  evidence = λ a b. (==_iff a b).0;
  validator = λ a b. (==_iff a b).0;
  abci = λ a b. (==_iff a b).0;
}

abbrev old_block : BlockParams
old_block = record { max_bytes = 4194304; max_gas = 7 }

abbrev old_params : ConsensusParams opaque
old_params = record {
  block = some old_block;
  evidence = 1;
  validator = 2;
  abci = 3;
  version = some 1;
}

abbrev consensus : ConsensusKeeper opaque (ConsensusParams opaque)
consensus = record {
  params_store = λ p. ok p;
  authority = "gov";
  update_params = λ m p. (
    ok tt,
    record p { block = m.block; evidence = m.evidence; validator = m.validator; abci = m.abci },
  );
}

abbrev new_params : ConsensusParams opaque
new_params = record old_params { block = some (new_block old_block) }

upgrade_v_1_2_0-Kept_example :
    (versions ≡ versions)
    × (old : ConsensusParams opaque) × (block : BlockParams) × (consensus.params_store old_params
        ≡ ok old)
    × (old.block ≡ some block)
    × (consensus.update_params (update_msg consensus old block) old_params ≡ (ok tt, new_params))
    × (consensus.params_store new_params ≡ ok (record old { block = some (new_block block) }))
unfolding upgrade_v_1_2_0 compare_params
upgrade_v_1_2_0-Kept_example =
    upgrade_v_1_2_0-Kept consensus sound versions versions old_params new_params refl
