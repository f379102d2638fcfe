-- ===== src/Staking/Sweep/Bounds.antt =====
-- The bound on the work of a block's sweep, and the index that it stores.
use story.Base.{
  ℕ, ◌+◌, ◌≤◌, ◌<◌, ◌≡◌, ◌⊎◌, inl, inr, [], ◌∷◌, refl, sym, ap, ◌∙◌, subst, some, List, length,
  u32_mod, arith,
}
use story.Action.{Outcome, ok, err, panic, Action, Done, ◌>>=◌}
use story.Action.Laws.{bind_ok, bind_err, bind_panic}
use story.Staking.Types.{SweepIndex, Params}
use story.Staking.External.{Env, Validator, Delegation}
use story.Staking.State.{State, query}
use story.Staking.Params.{
  field_of, get_validator_sweep_index, set_validator_sweep_index, max_sweep_per_block, get_params,
  read_sweep_index, min_partial_withdrawal_amount,
}
use story.Staking.Sweep.{Cursor, start, sweep_loop, sweep_from, process_reward_withdrawals}
use story.Staking.Sweep.After.{Post}
use story.Staking.Sweep.Adds.{queued}
use story.Staking.Sweep.Rounds.{Within, sweep_loop-After}

-- The index that starts the sweep is in range.
start-lt : (n : ℕ) (i : SweepIndex) → 0 < n → (start n i).val_index < n
start-lt n i h = ground arith

start_zero : (i : SweepIndex) → (start 0 i).val_index ≡ 0
start_zero i = ground arith

-- What the theorem states of the sweep's result.
abbrev Sweeps : {X : Type 0} → Env X → State X → ℕ → ℕ → Outcome Done × State X → Type 0
Sweeps env s bound n q =
    (queued q.1 ≤ queued s + bound)
    × (q.0 ≡ ok tt
        → (i : SweepIndex) × (bz : List ℕ) × (env.marshal_sweep_index i ≡ ok bz)
          × (q.1.validator_sweep_index ≡ some bz)
          × ((i.next_val_index ≡ 0) ⊎ (i.next_val_index < n)))

-- The end of a sweep: the index is encoded and stored.
index_Sweeps :
    {X : Type 0} (env : Env X) (s t : State X) (bound n : ℕ) (i : SweepIndex)
    → queued t ≤ queued s + bound
    → (i.next_val_index ≡ 0) ⊎ (i.next_val_index < n)
    → Sweeps env s bound n (set_validator_sweep_index env i t)
unfolding set_validator_sweep_index
index_Sweeps env s t bound n i le range = go (env.marshal_sweep_index i) refl
  where
    go :
        (r : Outcome (List ℕ))
        → env.marshal_sweep_index i ≡ r
        → Sweeps env s bound n (elim r [
          | ok bz ↦ (ok tt, record t { validator_sweep_index = some bz })
          | err e ↦ (err e, t)
          | panic ↦ (panic, t)
        ])
    go (ok bz) e = (le, λ _. (i, bz, e, refl, range))
    go (err x) e = (le, λ h. ground arith)
    go panic e = (le, λ h. ground arith)

sweep_some-Sweeps :
    {X : Type 0} (env : Env X)
    (few : (v : ℕ) (x : X) (ds : List Delegation)
      → env.get_validator_delegations v x ≡ ok ds
      → length ds < u32_mod)
    (s : State X) (vals : List Validator) (bound min_amount : ℕ) (index : SweepIndex)
    → bound < u32_mod
    → 0 < length vals
    → Sweeps env s bound (length vals) (sweep_from env vals bound min_amount index s)
unfolding sweep_from set_validator_sweep_index
sweep_some-Sweeps {X} env few s vals bound min_amount index lt nonempty =
    go (sweep_loop env min_amount bound vals (length vals) (start (length vals) index) s)
      (sweep_loop-After env few min_amount bound lt vals (length vals) (start (length vals) index) s
        (ground arith) (ground arith)).holds
  where
    go :
        (q : Outcome Cursor × State X)
        → Post
            (λ c' t. (c'.val_index < length vals) × Within bound (start (length vals) index) s t)
            (Within bound (start (length vals) index) s)
            q
        → Sweeps env s bound (length vals) (elim q.0 [
          | ok c ↦
              set_validator_sweep_index env
                (record { next_val_index = c.val_index; next_val_del_index = c.val_del_index })
                q.1
          | err e ↦ (err e, q.1)
          | panic ↦ (panic, q.1)
        ])
    go (ok c, t) h =
        let i : SweepIndex = record {
          next_val_index = c.val_index;
          next_val_del_index = c.val_del_index;
        } in
        index_Sweeps env s t bound (length vals) i (omega (arith, h.1)) (inr h.0)
    go (err x, t) h = (omega (arith, h), λ e. ground arith)
    go (panic, t) h = (omega (arith, h), λ e. ground arith)

-- The sweep of an empty set queues nothing, and starts again.
sweep_from-Sweeps :
    {X : Type 0} (env : Env X)
    (few : (v : ℕ) (x : X) (ds : List Delegation)
      → env.get_validator_delegations v x ≡ ok ds
      → length ds < u32_mod)
    (s : State X) (vals : List Validator) (bound min_amount : ℕ) (index : SweepIndex)
    → bound < u32_mod
    → Sweeps env s bound (length vals) (sweep_from env vals bound min_amount index s)
unfolding sweep_from set_validator_sweep_index sweep_loop
sweep_from-Sweeps env few s [] bound min_amount index lt =
    let i : SweepIndex = record {
      next_val_index = (start 0 index).val_index;
      next_val_del_index = (start 0 index).val_del_index;
    } in
    index_Sweeps env s s bound 0 i (omega arith) (inl (start_zero index))
sweep_from-Sweeps env few s (v ∷ vals) bound min_amount index lt =
    sweep_some-Sweeps env few s (v ∷ vals) bound min_amount index lt (omega arith)

process_eq :
    {X : Type 0} (env : Env X) (s : State X) (p : Params) (vals : List Validator)
    (index : SweepIndex)
    → (get_params env s).0 ≡ ok p
    → env.get_all_validators s.ext ≡ ok vals
    → read_sweep_index env s ≡ ok index
    → process_reward_withdrawals env s
      ≡ sweep_from env vals p.max_sweep_per_block p.min_partial_withdrawal_amount index s
unfolding process_reward_withdrawals get_validator_sweep_index max_sweep_per_block get_params
    min_partial_withdrawal_amount
process_eq {X} env s p vals index e v known =
    let sweep : ℕ → ℕ → Action (State X) Done =
      λ bound min_amount. sweep_from env vals bound min_amount index in
    bind_ok (get_validator_sweep_index env)
      (λ index. query env.get_all_validators >>= λ vals. max_sweep_per_block env >>= λ bound.
        min_partial_withdrawal_amount env >>= λ min_amount.
        sweep_from env vals bound min_amount index)
      s s index (ap (λ r. (r, s)) known)
    ∙ bind_ok (query env.get_all_validators)
        (λ vals. max_sweep_per_block env >>= λ bound.
          min_partial_withdrawal_amount env >>= λ min_amount.
          sweep_from env vals bound min_amount index)
        s s vals (ap (λ r. (r, s)) v)
    ∙ bind_ok (max_sweep_per_block env)
        (λ bound. min_partial_withdrawal_amount env >>= λ min_amount. sweep bound min_amount) s s
        p.max_sweep_per_block (ap (λ r. (field_of r (λ p. p.max_sweep_per_block), s)) e)
    ∙ bind_ok (min_partial_withdrawal_amount env)
        (λ min_amount. sweep p.max_sweep_per_block min_amount) s s p.min_partial_withdrawal_amount
        (ap (λ r. (field_of r (λ p. p.min_partial_withdrawal_amount), s)) e)

-- Where the parameters and the validators are read, the parameters' bound is a `uint32`, and no
-- validator has `2 ^ 32` or more delegations, whose number the code converts to a `uint32`: what a
-- sweep has queued, also one that fails, is at most the bound, and a sweep that succeeds stores an
-- index within the validator set, or 0.
pub process_reward_withdrawals_lem :
    {X : Type 0} (env : Env X)
    (few : (v : ℕ) (x : X) (ds : List Delegation)
      → env.get_validator_delegations v x ≡ ok ds
      → length ds < u32_mod)
    (s : State X) (p : Params) (vals : List Validator)
    → (get_params env s).0 ≡ ok p
    → p.max_sweep_per_block < u32_mod
    → env.get_all_validators s.ext ≡ ok vals
    → (queued (process_reward_withdrawals env s).1 ≤ queued s + p.max_sweep_per_block)
      × ((process_reward_withdrawals env s).0 ≡ ok tt
          → (i : SweepIndex) × (bz : List ℕ) × (env.marshal_sweep_index i ≡ ok bz)
            × ((process_reward_withdrawals env s).1.validator_sweep_index ≡ some bz)
            × ((i.next_val_index ≡ 0) ⊎ (i.next_val_index < length vals)))
unfolding process_reward_withdrawals get_validator_sweep_index
process_reward_withdrawals_lem {X} env few s p vals e lt v = go (read_sweep_index env s) refl
  where
    rest : SweepIndex → Action (State X) Done
    rest index = query env.get_all_validators >>= λ vals. max_sweep_per_block env >>= λ bound.
        min_partial_withdrawal_amount env >>= λ min_amount.
        sweep_from env vals bound min_amount index

    go :
        (r : Outcome SweepIndex)
        → read_sweep_index env s ≡ r
        → Sweeps env s p.max_sweep_per_block (length vals) (process_reward_withdrawals env s)
    go (ok index) known =
        subst (Sweeps env s p.max_sweep_per_block (length vals))
          (sym (process_eq env s p vals index e v known))
          (sweep_from-Sweeps env few s vals p.max_sweep_per_block p.min_partial_withdrawal_amount
            index lt)
    go (err x) unread =
        subst (Sweeps env s p.max_sweep_per_block (length vals))
          (sym (bind_err (get_validator_sweep_index env) rest s s x (ap (λ r. (r, s)) unread)))
          (omega arith, λ h. ground arith)
    go panic unread =
        subst (Sweeps env s p.max_sweep_per_block (length vals))
          (sym (bind_panic (get_validator_sweep_index env) rest s s (ap (λ r. (r, s)) unread)))
          (omega arith, λ h. ground arith)
