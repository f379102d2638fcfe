-- ===== src/Tests/Queues.antt =====
-- The theorems on queues, errors and x/evmstaking at one state.
use story.Base.{
  ℕ, ◌+◌, ◌<◌, ◌≤◌, ◌≡◌, ◌⊎◌, refl, ap, none, some, List, [], ◌∷◌, length, u32_mod, arith,
}
use story.Errors.{cause, not_found, wrap_err_with_code, unwrap_err_code}
use story.Errors.Codes.{unwrap_err_code-wrap_err_with_code}
use story.Action.{Outcome, ok, err, panic}
use story.Queue.Represents.{Represents}
use story.Staking.Events
use story.Staking.Types.{SweepIndex}
use story.Staking.External.{Delegation}
use story.Staking.State.{State}
use story.Staking.Handlers.Atomic.{Ends}
use story.Staking.Handlers.Frames.{handle, handle-Ends}
use story.Staking.Handlers.Frames
use story.Staking.Withdrawals.{dequeue_eligible_withdrawals}
use story.Staking.Withdrawals.Numbered.{
  numbered, events_of, dequeue_eligible_withdrawals-Represents,
}
use story.Staking.Params.{validate, get_params, read_params}
use story.Staking.Sweep.{process_reward_withdrawals}
use story.Staking.Sweep.Adds.{queued}
use story.Staking.Sweep.Bounds.{process_reward_withdrawals_lem}
use story.Staking.Genesis.{GenesisState, init_genesis, export_genesis}
use story.Staking.Genesis.RoundTrip.{export_genesis-init_genesis}
use story.Tests.Data.{
  World, staking_env, staking_state, params, validator, delegation, unstaked, queue_of-Represents,
  vacant,
}

unwrap_err_code-wrap_err_with_code_example :
    unwrap_err_code (wrap_err_with_code 6 (cause not_found ∷ [])) ≡ 6
unwrap_err_code-wrap_err_with_code_example =
    unwrap_err_code-wrap_err_with_code 6 (cause not_found ∷ []) (omega arith) (λ k. refl)

abbrev word : List ℕ
word =
    0 ∷ 0 ∷ 0 ∷ 0 ∷ 0 ∷ 0 ∷ 0 ∷ 0 ∷ 0 ∷ 0 ∷ 0 ∷ 0 ∷ 0 ∷ 0 ∷ 0 ∷ 0 ∷ 0 ∷ 0 ∷ 0 ∷ 0 ∷ 0 ∷ 0 ∷ 0 ∷ 0
    ∷ 0 ∷ 0 ∷ 0 ∷ 0 ∷ 0 ∷ 0 ∷ 0 ∷ 3 ∷ []

abbrev unjail : Frames.Request
unjail = Frames.unjail (record { unjailer = 1; validator_cmp_pubkey = []; tx_hash = [] })

handle-Ends_example :
    let (r, t) = handle staking_env unjail staking_state in
    Ends Events.unjail_success Events.unjail_failure staking_state r t
handle-Ends_example = handle-Ends staking_env unjail staking_state

dequeue_eligible_withdrawals-Represents_example :
    let (r, s) = dequeue_eligible_withdrawals (λ _. 7) 4 staking_state in
    (r ≡ ok (numbered (λ _. 7) 0 (unstaked ∷ [])))
    × Represents s.withdrawal_queue 1 []
    × (s ≡ record staking_state {
      withdrawal_queue = s.withdrawal_queue;
      events = events_of (λ _. 7) (unstaked ∷ []) [];
    })
dequeue_eligible_withdrawals-Represents_example =
    dequeue_eligible_withdrawals-Represents (λ _. 7) 4 0 staking_state (unstaked ∷ [])
      (queue_of-Represents unstaked)

few :
    (ds : List Delegation)
    → ◌≡◌ {A = Outcome (List Delegation)} (ok (delegation ∷ [])) (ok ds)
    → length ds < u32_mod
few ds e = omega (arith, ap {B = ℕ} (λ r. elim r [ ok xs ↦ length xs | err _ ↦ 0 | panic ↦ 0 ]) e)

process_reward_withdrawals_lem_example :
    (queued (process_reward_withdrawals staking_env staking_state).1 ≤ queued staking_state + 16)
    × ((process_reward_withdrawals staking_env staking_state).0 ≡ ok tt
        → (i : SweepIndex) × (bz : List ℕ) × (staking_env.marshal_sweep_index i ≡ ok bz)
          × ((process_reward_withdrawals staking_env staking_state).1.validator_sweep_index
              ≡ some bz)
          × ((i.next_val_index ≡ 0) ⊎ (i.next_val_index < 1)))
unfolding get_params read_params
process_reward_withdrawals_lem_example =
    process_reward_withdrawals_lem staking_env (λ v x ds e. few ds e) staking_state params
      (validator ∷ []) refl (omega arith) refl

abbrev genesis : GenesisState
genesis = record {
  params = params;
  validator_sweep_index = record { next_val_index = 3; next_val_del_index = 2 };
}

-- A state in which nothing is stored
abbrev blank : State World
blank = record staking_state {
  withdrawal_queue = vacant;
  reward_withdrawal_queue = vacant;
  params = none;
}

export_genesis-init_genesis_example :
    let t = (init_genesis staking_env genesis blank).1 in
    ((export_genesis staking_env t).0 ≡ ok genesis)
    × Represents t.withdrawal_queue 0 []
    × Represents t.reward_withdrawal_queue 0 []
unfolding validate
export_genesis-init_genesis_example =
    export_genesis-init_genesis staking_env genesis (4 ∷ 16 ∷ 10 ∷ []) (3 ∷ 2 ∷ []) blank refl refl
      refl refl refl (λ i. refl) (λ i. refl)
