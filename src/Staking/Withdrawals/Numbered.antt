-- ===== src/Staking/Withdrawals/Numbered.antt =====
-- What a peek shows and what a dequeue takes are the same numbered front of the queue.
use story.Base.{
  ℕ, zero, suc, ◌+◌, ◌≤◌, ◌<◌, ◌≡◌, refl, ap, ◌∙◌, inl, inr, none, some, true, false, String, List,
  [], ◌∷◌, arith, length, take, take_all, drop, get_elem?, Option-cases, u64_mod, ltb,
}
use story.Errors.{cause, empty_queue, out_of_bounds_queue}
use story.Action.{Outcome, ok, err}
use story.Queue.{Queue, dequeue, get, is_empty}
use story.Queue.Represents.{Represents, Represents-at}
use story.Queue.Laws.{dequeue_empty, dequeue-Represents, get-Represents, is_empty-Represents}
use story.Queue.Reads.{front_of-Represents, iterate-Represents}
use story.Staking.Events.{Event}
use story.Staking.Types.{Withdrawal, ElWithdrawal}
use story.Staking.State.{State}
use story.Staking.Withdrawals.{
  to_el, withdraw_event, dequeue_loop, dequeue_eligible, dequeue_eligible_withdrawals,
  dequeue_eligible_reward_withdrawals, peek_loop, peek_eligible, peek_eligible_withdrawals,
  peek_eligible_reward_withdrawals, retrieve, get_withdrawals,
}

drop_step {ℓ} :
    {A : Type ℓ} (xs : List A) (i : ℕ) (x : A)
    → get_elem? xs i ≡ some x
    → drop i xs ≡ x ∷ drop (suc i) xs
drop_step [] i x e = cc
drop_step (y ∷ xs) zero x e = ground arith
drop_step (y ∷ xs) (suc i) x e = drop_step xs i x e

lt_of_get {ℓ} : {A : Type ℓ} (xs : List A) (i : ℕ) (x : A) → get_elem? xs i ≡ some x → i < length xs
lt_of_get [] i x e = cc
lt_of_get (y ∷ xs) zero x e = omega arith
lt_of_get (y ∷ xs) (suc i) x e = omega (arith, lt_of_get xs i x e)

drop-none {ℓ} :
    {A : Type ℓ} (xs : List A) (i : ℕ) → get_elem? xs i ≡ none → (drop i xs ≡ []) × (length xs ≤ i)
drop-none [] zero e = (refl, omega arith)
drop-none [] (suc i) e = (refl, omega arith)
drop-none (y ∷ xs) zero e = cc
drop-none (y ∷ xs) (suc i) e = let h = drop-none xs i e in (h.0, omega arith)

module _ (hex_to_address : String → ℕ) where
  -- The withdrawals as the execution layer sees them, numbered from `n` on.
  abbrev pub numbered : ℕ → List Withdrawal → List ElWithdrawal
  numbered n [] = []
  numbered n (w ∷ ws) = to_el hex_to_address n w ∷ numbered (suc n) ws

  pub length-numbered : (n : ℕ) (ws : List Withdrawal) → length (numbered n ws) ≡ length ws
  length-numbered n [] = refl
  length-numbered n (w ∷ ws) = ap suc (length-numbered (suc n) ws)

  -- What a dequeue leaves: the rest of the queue, and one event for each withdrawal, newest first.
  abbrev pub events_of : List Withdrawal → List Event → List Event
  events_of [] es = es
  events_of (w ∷ ws) es = events_of ws (withdraw_event w ∷ es)

  -- What a dequeue of at most `n` has done when it is over.
  abbrev Dequeued :
      ℕ
      → List Withdrawal
      → List Event
      → ℕ
      → Outcome (List ElWithdrawal)
      → Queue Withdrawal
      → List Event
      → Type 0
  Dequeued f xs es n r q es' =
      (r ≡ ok (numbered f (take n xs)))
      × Represents q (f + length (take n xs)) (drop n xs)
      × (es' ≡ events_of (take n xs) es)

  dequeue_loop-Represents :
      (front n i f : ℕ) (q : Queue Withdrawal) (es : List Event) (xs : List Withdrawal)
      → front + i ≡ f
      → Represents q f xs
      → let (r, (q', es')) = dequeue_loop hex_to_address front n i (q, es) in
        Dequeued f xs es n r q' es'
  unfolding dequeue_loop
  dequeue_loop-Represents front zero i f q es xs e r = (refl, Represents-at (omega arith) r, refl)
  dequeue_loop-Represents front (suc n) i f q es [] e r =
      let failed : (dequeue q).0 ≡ err (cause empty_queue ∷ []) =
        ap (λ p. p.0) (dequeue_empty q f r) in
      let same : (dequeue q).1 ≡ q = ap (λ p. p.1) (dequeue_empty q f r) in
      rw (failed, same, dequeue_loop) (refl, Represents-at (omega arith) r, refl)
  dequeue_loop-Represents front (suc n) i f q es (x ∷ xs) e r =
      let (taken, rest) = dequeue-Represents q f x xs r in
      let (got, left, told) =
        dequeue_loop-Represents front n (suc i) (suc f) (dequeue q).1 (withdraw_event x ∷ es) xs
          (omega arith) rest in
      rw (taken, dequeue_loop, got, e) (refl, Represents-at (omega arith) left, told)

  peek_loop-Represents :
      (q : Queue Withdrawal) (f : ℕ) (xs : List Withdrawal) (n i k : ℕ)
      → Represents q f xs
      → i + n < u64_mod
      → i ≤ length xs
      → f + i ≡ k
      → peek_loop hex_to_address q f n i ≡ ok (numbered k (take n (drop i xs)))
  unfolding peek_loop
  peek_loop-Represents q f xs zero i k r b h e = refl
  peek_loop-Represents q f xs (suc n) i k r b h e = elim (Option-cases (get_elem? xs i)) [
    | inl none_left ↦
        let (nil, end) = drop-none xs i none_left in
        let at_end : ltb (f + i) u64_mod ≡ true = let fits = r.fits in ground arith in
        let missed : get q i ≡ err (cause out_of_bounds_queue ∷ []) =
          get-Represents q f xs i r (omega arith) ∙ rw (none_left, at_end) in
        rw (missed, peek_loop, nil)
    | inr (x, there) ↦
        let found : get q i ≡ ok x = get-Represents q f xs i r (omega arith) ∙ rw there in
        let rest =
          peek_loop-Represents q f xs n (suc i) (suc k) r (omega arith) (lt_of_get xs i x there)
            (omega arith) in
        rw (found, peek_loop, rest, drop_step xs i x there, e)
  ]

  -- `DequeueEligibleWithdrawals` takes the first `max` entries, numbered from the front counter, and
  -- emits one event for each.
  dequeue_eligible-Represents :
      (max f : ℕ) (q : Queue Withdrawal) (es : List Event) (xs : List Withdrawal)
      → Represents q f xs
      → let (r, (q', es')) = dequeue_eligible hex_to_address max (q, es) in
        Dequeued f xs es max r q' es'
  unfolding dequeue_eligible
  dequeue_eligible-Represents max f q es xs r =
      rw (front_of-Represents q f xs r, dequeue_eligible)
        (dequeue_loop-Represents f max 0 f q es xs (omega arith) r)

  peek_eligible-Represents :
      (max f : ℕ) (q : Queue Withdrawal) (xs : List Withdrawal)
      → Represents q f xs
      → max < u64_mod
      → peek_eligible hex_to_address max q ≡ ok (numbered f (take max xs))
  unfolding peek_eligible
  peek_eligible-Represents max f q [] r b =
      let vacant : is_empty q ≡ true = is_empty-Represents q f [] r in
      rw (vacant, take_all {A = Withdrawal} max [] (omega arith))
  peek_eligible-Represents max f q (x ∷ xs) r b =
      let occupied : is_empty q ≡ false = ground (arith, is_empty-Represents q f (x ∷ xs) r) in
      rw (occupied, front_of-Represents q f (x ∷ xs) r)
        (peek_loop-Represents q f (x ∷ xs) max 0 f r (omega arith) (omega arith) (omega arith))

  module _ {X : Type 0} (max f : ℕ) (s : State X) (xs : List Withdrawal) where
    -- A dequeue of the withdrawal queue returns the first `max` entries, numbered from the front
    -- counter; the rest stays, numbered on; each entry taken has its event, and nothing else changes.
    pub dequeue_eligible_withdrawals-Represents :
        Represents s.withdrawal_queue f xs
        → let (r, s') = dequeue_eligible_withdrawals hex_to_address max s in
          (r ≡ ok (numbered f (take max xs)))
          × Represents s'.withdrawal_queue (f + length (take max xs)) (drop max xs)
          × (s' ≡ record s {
            withdrawal_queue = s'.withdrawal_queue;
            events = events_of (take max xs) s.events;
          })
    unfolding dequeue_eligible_withdrawals
    dequeue_eligible_withdrawals-Represents r =
        let (got, left, told) =
          dequeue_eligible-Represents max f s.withdrawal_queue s.events xs r in
        (got, left, rw told)

    pub dequeue_eligible_reward_withdrawals-Represents :
        Represents s.reward_withdrawal_queue f xs
        → let (r, s') = dequeue_eligible_reward_withdrawals hex_to_address max s in
          (r ≡ ok (numbered f (take max xs)))
          × Represents s'.reward_withdrawal_queue (f + length (take max xs)) (drop max xs)
          × (s' ≡ record s {
            reward_withdrawal_queue = s'.reward_withdrawal_queue;
            events = events_of (take max xs) s.events;
          })
    unfolding dequeue_eligible_reward_withdrawals
    dequeue_eligible_reward_withdrawals-Represents r =
        let (got, left, told) =
          dequeue_eligible-Represents max f s.reward_withdrawal_queue s.events xs r in
        (got, left, rw told)

    pub peek_eligible_withdrawals-Represents :
        max < u64_mod
        → Represents s.withdrawal_queue f xs
        → peek_eligible_withdrawals hex_to_address max s ≡ ok (numbered f (take max xs))
    unfolding peek_eligible_withdrawals
    peek_eligible_withdrawals-Represents b r =
        peek_eligible-Represents max f s.withdrawal_queue xs r b

    pub peek_eligible_reward_withdrawals-Represents :
        max < u64_mod
        → Represents s.reward_withdrawal_queue f xs
        → peek_eligible_reward_withdrawals hex_to_address max s ≡ ok (numbered f (take max xs))
    unfolding peek_eligible_reward_withdrawals
    peek_eligible_reward_withdrawals-Represents b r =
        peek_eligible-Represents max f s.reward_withdrawal_queue xs r b

retrieve-take : (i n max : ℕ) (ws : List Withdrawal) → i + n ≡ max → retrieve i max ws ≡ take n ws
unfolding retrieve
retrieve-take i zero max [] e = refl
retrieve-take i (suc n) max [] e = refl
retrieve-take i zero max (w ∷ ws) e = ground arith
retrieve-take i (suc n) max (w ∷ ws) e =
    let room : ltb i max ≡ true = ground arith in
    rw room (ap (◌∷◌ w) (retrieve-take (i + 1) n max ws (omega arith)))

-- `GetWithdrawals` returns the first entries of the queue, `max` of them at most, and takes none.
pub get_withdrawals-take :
    {X : Type 0} (max f : ℕ) (s : State X) (xs : List Withdrawal)
    → Represents s.withdrawal_queue f xs
    → get_withdrawals max s ≡ take max xs
unfolding get_withdrawals
get_withdrawals-take max f s xs r =
    rw (iterate-Represents s.withdrawal_queue f xs r) (retrieve-take 0 max max xs (omega arith))
