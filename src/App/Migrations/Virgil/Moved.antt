-- ===== src/App/Migrations/Virgil/Moved.antt =====
-- client/app/upgrades/singularity/virgil: what the handler leaves in the staking module's store.
use story.Base.{
  ℕ, ◌≡◌, refl, sym, ap, ◌∙◌, Bool-cases, inl, inr, String, some, List, [], ◌∷◌, map, ◌==◌,
  sub_int64, not, if◌then◌else◌, arith,
}
use story.Action.{ok, Action, Done, pure, ask, fail_if, outcome, ◌>>=◌, ◌>>◌}
use story.Action.Laws.{ask_inv, outcome_inv, then_inv, fail_if_inv}
use story.App.Forks.{virgil_upgrade_height}
use story.App.Migrations.Staking.{StakingTypes, Params, PeriodDelegation, StakingKeeper}
use story.App.Migrations.Virgil.{
  time_add, moved, update_period, rewards_multipliers, RewardsMultipliers, check_periods,
  old_short_period_duration, new_short_period_duration, move_delegation, move_delegations,
  migrate_periods, migrate_delegations, upgrade_virgil,
}
use story.App.Migrations.Virgil.Store.{
  Fresh, Distinct, Store, read, Moved, Keeps, read_eq, find_same, read_same, apart_sym,
}

module _ {T : StakingTypes} {X : Type 0} (keeper : StakingKeeper T X) (store : Store keeper) where
  move_delegation_inv :
      (shift : ℕ) (d : PeriodDelegation T) (x y : X)
      → move_delegation keeper shift d x ≡ (ok tt, y)
      → (a : ℕ) × (b : ℕ) × (keeper.acc_from_bech32 d.delegator_address ≡ ok a)
        × (keeper.val_from_bech32 d.validator_address ≡ ok b)
        × (keeper.set_period_delegation a b (moved T shift d) x ≡ (ok tt, y))
  unfolding move_delegation
  move_delegation_inv shift d x y h =
      let check : PeriodDelegation T → Action X Done =
        λ new. fail_if (not (new.end_time == time_add d.end_time shift)) [] in
      let back : ℕ → ℕ → Action X Done =
        λ a b. ask (keeper.get_period_delegation a b d.period_delegation_id) >>= check in
      let set : ℕ → ℕ → Action X Done =
        λ a b. keeper.set_period_delegation a b (moved T shift d) >> back a b in
      let (a, acc, h₁) =
        outcome_inv (λ a. outcome (keeper.val_from_bech32 d.validator_address) >>= set a) x y tt
          (keeper.acc_from_bech32 d.delegator_address) h in
      let (b, val, h₂) =
        outcome_inv (set a) x y tt (keeper.val_from_bech32 d.validator_address) h₁ in
      let (u, stored, h₃) =
        then_inv (keeper.set_period_delegation a b (moved T shift d)) (back a b) x y tt h₂ in
      let (new, got, h₄) =
        ask_inv check u y tt (keeper.get_period_delegation a b d.period_delegation_id) h₃ in
      let (right, same) = fail_if_inv (not (new.end_time == time_add d.end_time shift)) [] u y h₄ in
      (a, b, acc, val, stored ∙ λ i. (ok tt, sym same i))

  -- One step, and what it leaves of the others.
  move_step :
      (shift : ℕ) (d : PeriodDelegation T) (x y : X)
      → move_delegation keeper shift d x ≡ (ok tt, y)
      → (read keeper d y ≡ ok (moved T shift d)) × Keeps keeper store d x y
  move_step shift d x y h =
      let (a, b, acc, val, stored) = move_delegation_inv shift d x y h in
      (
        read_eq keeper store d a b y acc val
            ∙ store.delegation_read a b (moved T shift d) x y stored,
        (
          (store.delegation_keeps a b (moved T shift d) x y stored).0,
          λ e apart. read_same keeper store a b (moved T shift d) e x y acc val stored apart,
        ),
      )

  from_before :
      (shift : ℕ) (d : PeriodDelegation T) (x u y : X) (ds : List (PeriodDelegation T))
      → Fresh keeper d ds
      → Keeps keeper store d x u
      → Moved keeper shift u y ds
      → Moved keeper shift x y ds
  from_before shift d x u y [] fresh keeps m = tt
  from_before shift d x u y (e ∷ ds) fresh keeps m = (
    m.0 ∙ ap (λ r. if e.period_type == 1 then ok (moved T shift e) else r) (keeps.1 e fresh.0),
    from_before shift d x u y ds fresh.1 keeps m.1,
  )

  -- What the loop over the delegations does, for a list of distinct keys.
  abbrev Swept : ℕ → X → X → List (PeriodDelegation T) → Type 0
  Swept shift x y ds =
      Moved keeper shift x y ds
      × (keeper.get_params y ≡ keeper.get_params x)
      × ((e : PeriodDelegation T) → Fresh keeper e ds → read keeper e y ≡ read keeper e x)

  move_delegations-Swept :
      (shift : ℕ) (ds : List (PeriodDelegation T)) (x y : X)
      → Distinct keeper ds
      → move_delegations keeper shift ds x ≡ (ok tt, y)
      → Swept shift x y ds
  unfolding move_delegations
  move_delegations-Swept shift [] x y distinct h =
      let same : y ≡ x = λ i. (sym h i).1 in
      (tt, ap (λ z. keeper.get_params z) same, λ e fresh. ap (λ z. read keeper e z) same)
  move_delegations-Swept shift (d ∷ ds) x y distinct h = elim (Bool-cases (d.period_type == 1)) [
    | inl short ↦
        let (u, step, rest) =
          then_inv (move_delegation keeper shift d) (move_delegations keeper shift ds) x y tt
            (rw short at h) in
        let (done, keeps) = move_step shift d x u step in
        let (later, params, others) = move_delegations-Swept shift ds u y distinct.1 rest in
        (
          (
            others d distinct.0 ∙ done ∙ rw short refl,
            from_before shift d x u y ds distinct.0 keeps later,
          ),
          params ∙ keeps.0,
          λ e fresh. others e fresh.1 ∙ keeps.1 e (apart_sym keeper store e d fresh.0),
        )
    | inr long ↦
        let (later, params, others) =
          move_delegations-Swept shift ds x y distinct.1 (rw long at h) in
        ((others d distinct.0 ∙ rw long refl, later), params, λ e fresh. others e fresh.1)
  ]

  -- The parameters are set, and nothing of the delegations changes.
  migrate_periods_inv :
      (m : RewardsMultipliers T) (params : Params T) (x y : X)
      → migrate_periods keeper m params x ≡ (ok tt, y)
      → keeper.set_params (record params { periods = map (update_period T m) params.periods }) x
        ≡ (ok tt, y)
  unfolding migrate_periods
  migrate_periods_inv m params x y h =
      let check : Params T → Action X Done = λ new. outcome (check_periods T m new.periods) in
      let (u, set, h₁) =
        then_inv
          (keeper.set_params (record params { periods = map (update_period T m) params.periods }))
          (ask keeper.get_params >>= check) x y tt h in
      let (new, got, h₂) = ask_inv check u y tt keeper.get_params h₁ in set ∙ λ i. (ok tt, (h₂ i).1)

  from_same :
      (shift : ℕ) (x u y : X) (ds : List (PeriodDelegation T))
      → ((e : PeriodDelegation T) → read keeper e u ≡ read keeper e x)
      → Moved keeper shift u y ds
      → Moved keeper shift x y ds
  from_same shift x u y [] same m = tt
  from_same shift x u y (e ∷ ds) same m = (
    m.0 ∙ ap (λ r. if e.period_type == 1 then ok (moved T shift e) else r) (same e),
    from_same shift x u y ds same m.1,
  )

  -- A handler that succeeds on a network with a height for Virgil gives the versions back. The store
  -- then has the parameters with their periods updated and the rest as before, every short delegation
  -- with its end moved by the difference of the durations, and every other delegation as before. Here
  -- the store reads back what is set, changes nothing else, and lists its delegations by distinct keys.
  pub upgrade_virgil-Moved :
      {VM : Type 0} (chain_id : String) (height : ℕ) (vm vm' : VM) (s t : X)
      → virgil_upgrade_height chain_id ≡ some height
      → upgrade_virgil keeper chain_id vm s ≡ (ok vm', t)
      → (vm' ≡ vm)
        × (params : Params T) × (ds : List (PeriodDelegation T)) × (keeper.get_params s ≡ ok params)
        × (keeper.get_all_period_delegations s ≡ ok ds)
        × (keeper.get_params t
            ≡ ok (record params {
              periods = map (update_period T (rewards_multipliers T chain_id)) params.periods;
            }))
        × Moved keeper
            (sub_int64 new_short_period_duration (old_short_period_duration T 0 params.periods))
            s
            t
            ds
  unfolding upgrade_virgil migrate_periods migrate_delegations
  upgrade_virgil-Moved {VM = VM} chain_id height vm vm' s t known h =
      let m = rewards_multipliers T chain_id in
      let rest : Params T → Action X VM = λ params.
        migrate_periods keeper m params
        >> (migrate_delegations keeper (old_short_period_duration T 0 params.periods) >> pure vm) in
      let (params, got, h₁) =
        ask_inv rest s t vm' keeper.get_params (rw (known, upgrade_virgil) at h) in
      let after : Action X VM =
        migrate_delegations keeper (old_short_period_duration T 0 params.periods) >> pure vm in
      let (u, changed, h₂) = then_inv (migrate_periods keeper m params) after s t vm' h₁ in
      let (w, swept, h₃) =
        then_inv (migrate_delegations keeper (old_short_period_duration T 0 params.periods))
          (pure vm) u t vm' h₂ in
      let shift =
        sub_int64 new_short_period_duration (old_short_period_duration T 0 params.periods) in
      let (ds, all, loop) =
        ask_inv (move_delegations keeper shift) u t tt keeper.get_all_period_delegations
          (swept ∙ λ i. (ok tt, (h₃ i).1)) in
      let set = migrate_periods_inv m params s u changed in
      let new : Params T = record params { periods = map (update_period T m) params.periods } in
      let (list_kept, reads_kept) = store.params_keep new s u set in
      let (moves, params_kept, others) =
        move_delegations-Swept shift ds u t (store.keys u ds all) loop in
      (
        ground arith,
        params,
        ds,
        got,
        sym list_kept ∙ all,
        params_kept ∙ store.params_read new s u set,
        from_same shift s u t ds
            (λ e.
              find_same keeper store e.period_delegation_id s u
                (keeper.acc_from_bech32 e.delegator_address)
                (keeper.val_from_bech32 e.validator_address)
                (λ a b _ _. reads_kept a b e.period_delegation_id))
            moves,
      )
