-- ===== src/Staking/Sweep/Adds.antt =====
-- How many rewards an action queues at most.
use story.Base.{
  ℕ, suc, ◌+◌, ◌%◌, ◌≤◌, ◌≡◌, refl, ap, ◌∙◌, Bool, true, false, String, List, [], ◌∷◌, length,
  if◌then◌else◌, u64_mod, arith,
}
use story.Action.{Outcome, ok, err, panic, Action, Done, ◌>>=◌, ◌>>◌}
use story.Queue.{value_or_zero, enqueue}
use story.Staking.Types.{Withdrawal}
use story.Staking.External.{Env, Validator, Delegation}
use story.Staking.State.{State}
use story.Staking.Withdrawals.{add_reward_withdrawal_to_queue}
use story.Staking.Rewards.{
  no_commission, val_bech32_to_evm, enqueue_reward_withdrawal, process_eligible_reward_withdrawal,
}
use story.Staking.Sweep.{process_delegations}
use story.Staking.Handlers.Atomic.{Keeps, keeping, framing}

-- The number of rewards queued so far.
abbrev pub queued : {X : Type 0} → State X → ℕ
queued s = value_or_zero s.reward_withdrawal_queue.rear

-- The action queues at most `k` rewards, and no other withdrawal.
pub record Adds {X A : Type 0} (k : ℕ) (m : Action (State X) A) : Type 0 where
  pub adds : (s : State X) → queued (m s).1 ≤ queued s + k
  pub same : (s : State X) → (m s).1.withdrawal_queue ≡ s.withdrawal_queue

module _ {X A : Type 0} where
  pub Adds-Keeps : (k : ℕ) (m : Action (State X) A) → Keeps m → Adds k m
  Adds-Keeps k m h = record {
    adds = λ s. omega (arith, ap (λ f. value_or_zero f.reward_withdrawal_queue.rear) (h.keeps s));
    same = λ s. ap (λ f. f.withdrawal_queue) (h.keeps s);
  }

  pub Adds-if :
      (k : ℕ) (b : Bool) (m n : Action (State X) A)
      → Adds k m
      → Adds k n
      → Adds k (if b then m else n)
  Adds-if k true m n h l = h
  Adds-if k false m n h l = l

  pub Adds-more : (j k : ℕ) (m : Action (State X) A) → j ≤ k → Adds j m → Adds k m
  Adds-more j k m le h = record { adds = λ s. omega (arith, h.adds s); same = h.same }

module _ {X A B : Type 0} (j k : ℕ) (m : Action (State X) A) (f : A → Action (State X) B) where
  go :
      (s t : State X) (r : Outcome A)
      → ((a : A) → Adds k (f a))
      → queued t ≤ queued s + j
      → t.withdrawal_queue ≡ s.withdrawal_queue
      → let p : Outcome B × State X = elim r [
        | ok a ↦ f a t
        | err e ↦ (err e, t)
        | panic ↦ (panic, t)
      ] in
        (queued p.1 ≤ queued s + (j + k)) × (p.1.withdrawal_queue ≡ s.withdrawal_queue)
  go s t (ok a) l le e = (omega (arith, (l a).adds t), (l a).same t ∙ e)
  go s t (err x) l le e = (omega arith, e)
  go s t panic l le e = (omega arith, e)

  pub Adds-bind : Adds j m → ((a : A) → Adds k (f a)) → Adds (j + k) (m >>= f)
  Adds-bind h l = record {
    adds = λ s. (go s (m s).1 (m s).0 l (h.adds s) (h.same s)).0;
    same = λ s. (go s (m s).1 (m s).0 l (h.adds s) (h.same s)).1;
  }

module _ {X A B : Type 0} (k : ℕ) where
  pub Adds-after :
      (m : Action (State X) A) (f : A → Action (State X) B)
      → Keeps m
      → ((a : A) → Adds k (f a))
      → Adds k (m >>= f)
  Adds-after m f h l = Adds-more (0 + k) k _ (omega arith) (Adds-bind 0 k m f (Adds-Keeps 0 m h) l)

pub Adds-next :
    {X B : Type 0} (k : ℕ) (m : Action (State X) Done) (n : Action (State X) B)
    → Keeps m
    → Adds k n
    → Adds k (m >> n)
Adds-next k m n h l = Adds-after k m (λ _. n) h (λ _. l)

module _ {X : Type 0} where
  pub add_reward-Adds : (w : Withdrawal) → Adds 1 (add_reward_withdrawal_to_queue {X = X} w)
  unfolding add_reward_withdrawal_to_queue enqueue
  add_reward-Adds w = record { adds = λ s. omega arith; same = λ s. refl }

  pub no_commission-Keeps : (m : Action (State X) ℕ) → Keeps m → Keeps (no_commission m)
  no_commission-Keeps m h = record { keeps = λ s. h.keeps s }

  pub val_bech32_to_evm-Keeps : (env : Env X) (a : String) → Keeps (val_bech32_to_evm env a)
  unfolding val_bech32_to_evm
  val_bech32_to_evm-Keeps env a = search keeping

pub ruleset adding = (
  framing, no_commission-Keeps, val_bech32_to_evm-Keeps, add_reward-Adds, Adds-after, Adds-next,
  Adds-if, Adds-Keeps,
)

module _ {X : Type 0} (env : Env X) where
  pub enqueue_reward-Adds : (d v : String) (n : ℕ) → Adds 1 (enqueue_reward_withdrawal env d v n)
  unfolding enqueue_reward_withdrawal
  enqueue_reward-Adds d v n = search adding depth 40

  pub process_eligible-Adds :
      (n : ℕ) (v : Validator) (d : Delegation)
      → Adds 1 (process_eligible_reward_withdrawal env n v d)
  unfolding process_eligible_reward_withdrawal
  process_eligible-Adds n v d = search (adding, enqueue_reward-Adds) depth 40

  pub process_delegations-Adds :
      (n : ℕ) (v : Validator) (ds : List Delegation) (i : ℕ)
      → Adds (length ds) (process_delegations env n v ds i)
  unfolding process_delegations
  process_delegations-Adds n v [] i = search adding
  process_delegations-Adds n v (d ∷ ds) i =
      Adds-more (1 + length ds) (suc (length ds)) _ (omega arith) (
        Adds-bind 1 (length ds) _ _ (process_eligible-Adds n v d)
          (λ _. process_delegations-Adds n v ds ((i + 1) % u64_mod)))
