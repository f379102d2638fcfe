-- ===== src/Engine/Build/Proposed.antt =====
-- abci.go, `PrepareProposal`, against proposal_server.go: what a proposer proposes, other validators
-- read back and find to follow the head, with the withdrawals that they expect.
use text.Mathlib.TextEquality.{eq_iff}
use story.Base.{
  ℕ, ◌+◌, ◌*◌, ◌/◌, ◌≤◌, ◌<◌, ◌≡◌, refl, sym, ap, subst, Bool, true, false, Option, some, List, [],
  ◌∷◌, u32_mod, u64_mod, arith, ltb, ◌==◌, if◌then◌else◌,
}
use story.Errors.{cause, exec_eng_syncing}
use story.Action.{Outcome, ok, err}
use story.Queue.Represents.{Represents}
use story.Staking.Types.{Withdrawal, ElWithdrawal}
use story.Staking.Params.{max_withdrawal_per_block}
use story.Engine.Types.{ExecutableData, ExecutionHead, MsgExecutionPayload}
use story.Engine.Convert.{slice}
use story.Engine.State.{Env, State}
use story.Engine.Payload.{parse_and_verify_proposed_payload}
use story.Engine.Payload.Sound.{Follows, parse_and_verify_proposed_payload_iff}
use story.Engine.Withdrawals.{compare_withdrawals}
use story.Engine.Withdrawals.Compare.{pointers}
use story.Engine.Events.{canceled}
use story.Engine.Retry.{Run, once, retry_forever, ◌>>=◌}
use story.Engine.Retry.Ends.{Answers-retry_forever, bind_ok_inv, once_inv, ended_inv}
use story.Engine.Build.{
  build_timestamp, try_build, try_fetch, max_bytes, choose_payload, build_message, peek_withdrawals,
  propose, prepare_proposal,
}
use story.Engine.Build.Peeked.{owed_by, peek_withdrawals-owed_by, compare_withdrawals-owed_by}
use story.Engine.Build.Message.{Reads, payload_message-Reads, build_message_inv}
use story.Engine.Build.Promise.{
  Builds, Due, ReadsJson, Fulfils-Follows, Answers-try_build, Answers-try_fetch,
}

module _ {X : Type 0} (env : Env X) (head : ExecutionHead) (ws : List ElWithdrawal)
    (Promised : ℕ → ℕ → X → Type 0) (client : Builds env head ws Promised) where
  choose_payload-Due :
      (fuel height time id : ℕ) (s t : State X)
      → s.head ≡ some head
      → time ≤ env.staking.block_time
      → (height ≡ s.payload_height → Due env head ws Promised s.payload_id s.staking.ext)
      → choose_payload env fuel height time ws s ≡ some (ok id, t)
      → Due env head ws Promised id t.staking.ext
  unfolding choose_payload
  choose_payload-Due fuel height time id s t h b stored e = go (height == s.payload_height) refl e
    where
      go :
          (same : Bool)
          → (height == s.payload_height) ≡ same
          → ◌≡◌ {A = Option (Outcome ℕ × State X)}
              (if same
                then some (ok s.payload_id, s)
                else retry_forever (canceled env) (try_build env ws time) fuel s)
              (some (ok id, t))
          → Due env head ws Promised id t.staking.ext
      go true c e =
          let (same_id, same_state) =
            ended_inv s t s.payload_id id (once_inv (λ u. (ok s.payload_id, u)) s t id e) in
          subst (λ u. Due env head ws Promised id u.staking.ext) same_state
            (subst (λ i. Due env head ws Promised i s.staking.ext) same_id (stored (ground arith)))
      go false c e =
          let (k, _, built) =
            Answers-retry_forever (canceled env) (try_build env ws time) fuel s t id e in
          (time, b, Answers-try_build env head ws Promised client time id k s t h built)

-- A proposer in state `s` and a validator in state `v` of the same block: the queues, the parameters
-- and the head agree; what is outside the modules need not.
module _ {X : Type 0} (env : Env X) (head : ExecutionHead) (max f g : ℕ)
    (xs ys : List Withdrawal) where
  pub record Ready (s : State X) : Type 0 where
    pub head_eq : s.head ≡ some head
    pub max_eq : (max_withdrawal_per_block env.staking s.staking).0 ≡ ok max
    pub queue : Represents s.staking.withdrawal_queue f xs
    pub rewards : Represents s.staking.reward_withdrawal_queue g ys

  abbrev pub owed : List ElWithdrawal
  owed = owed_by env.staking.hex_to_address max f g xs ys

  module _ (Promised : ℕ → ℕ → X → Type 0) (client : Builds env head owed Promised)
      (json : ReadsJson env head owed) (small : max < u32_mod)
      (early : head.block_time + 1 < u64_mod) where
    -- The steps of `propose` after the withdrawals and after the payload's identifier
    abbrev fetched : ℕ → ℕ → ℕ → Run (State X) (List MsgExecutionPayload)
    fetched fuel max_tx_bytes id =
        retry_forever (canceled env) (try_fetch env id) fuel >>= build_message env fuel max_tx_bytes

    abbrev chosen : ℕ → ℕ → ℕ → ℕ → List ElWithdrawal → Run (State X) (List MsgExecutionPayload)
    chosen fuel height time max_tx_bytes ws =
        choose_payload env fuel height time ws >>= fetched fuel max_tx_bytes

    -- What a message is that a validator accepts: the payload that it reads follows the head, with the
    -- withdrawals that are owed.
    abbrev Proposal : MsgExecutionPayload → Type 0
    Proposal msg =
        (p : ExecutableData) × Follows env head p
        × (p.withdrawals ≡ some (pointers owed))
        × Reads env head owed p msg

    fetched-Proposal :
        (fuel max_tx_bytes id : ℕ) (s t : State X) (msg : MsgExecutionPayload)
        → Due env head owed Promised id s.staking.ext
        → fetched fuel max_tx_bytes id s ≡ some (ok (msg ∷ []), t)
        → Proposal msg
    fetched-Proposal fuel max_tx_bytes id s t msg (time, b, due) e =
        let (p, u, got, rest) =
          bind_ok_inv (retry_forever (canceled env) (try_fetch env id) fuel)
            (build_message env fuel max_tx_bytes) s t (msg ∷ []) e in
        let (k, _, answers) =
          Answers-retry_forever (canceled env) (try_fetch env id) fuel s u p got in
        let built =
          Answers-try_fetch env head owed Promised client (build_timestamp env head time) id p k s u
            due answers in
        let (events, written) = build_message_inv env head owed fuel max_tx_bytes p msg u t rest in
        (
          p,
          Fulfils-Follows env head owed time p early b built,
          built.withdrawals_eq,
          payload_message-Reads env head owed (build_timestamp env head time) p events msg json
              built written,
        )

    propose-Proposal :
        (fuel height time max_tx_bytes : ℕ) (s t : State X) (msg : MsgExecutionPayload)
        → Ready s
        → time ≤ env.staking.block_time
        → (height ≡ s.payload_height → Due env head owed Promised s.payload_id s.staking.ext)
        → propose env fuel height time max_tx_bytes s ≡ some (ok (msg ∷ []), t)
        → Proposal msg
    unfolding propose
    propose-Proposal fuel height time max_tx_bytes s t msg ready b stored e =
        let (ws, u, peeked, rest) =
          bind_ok_inv (once (λ u. (peek_withdrawals env u, u)))
            (chosen fuel height time max_tx_bytes) s t (msg ∷ []) e in
        let read = once_inv (λ u. (peek_withdrawals env u, u)) s u ws peeked in
        let same : owed ≡ ws =
          let peek =
            peek_withdrawals-owed_by env s max f g xs ys ready.max_eq small ready.queue
              ready.rewards in
          let found = ap (λ p. p.0) read in cc in
        let rest' : chosen fuel height time max_tx_bytes owed s ≡ some (ok (msg ∷ []), t) =
          subst (λ w. chosen fuel height time max_tx_bytes w s ≡ some (ok (msg ∷ []), t)) (sym same)
            (subst (λ v. chosen fuel height time max_tx_bytes ws v ≡ some (ok (msg ∷ []), t))
              (sym (ap (λ p. p.1) read)) rest) in
        let (id, v, got, end) =
          bind_ok_inv (choose_payload env fuel height time owed) (fetched fuel max_tx_bytes) s t
            (msg ∷ []) rest' in
        fetched-Proposal fuel max_tx_bytes id v t msg
          (choose_payload-Due env head owed Promised client fuel height time id s v ready.head_eq b
            stored got)
          end

    -- A message that `PrepareProposal` returns, at a time not after the block's, reads for a validator
    -- with the same queues, limit and head as a payload that passes `parseAndVerifyProposedPayload`
    -- and the comparison of withdrawals. The limit is a 32-bit number, the head's time does not
    -- overflow, an optimistic payload for the height was promised for such a time too, the client
    -- builds what it is asked, and the JSON codec reads back what it wrote.
    pub prepare_proposal-accepted :
        (fuel txs max_tx_bytes height time : ℕ) (s t v : State X) (msg : MsgExecutionPayload)
        → Ready s
        → Ready v
        → time ≤ env.staking.block_time
        → (height ≡ s.payload_height → Due env head owed Promised s.payload_id s.staking.ext)
        → prepare_proposal env fuel txs max_tx_bytes height time s ≡ some (ok (msg ∷ []), t)
        → (p : ExecutableData) × (parse_and_verify_proposed_payload env msg v ≡ ok p)
          × ((compare_withdrawals env (slice p.withdrawals) v).0 ≡ ok tt)
    unfolding prepare_proposal
    prepare_proposal-accepted fuel txs max_tx_bytes height time s t v msg here there b stored e =
        let (p, follows, withdrawals, (authority, terence, status, read)) =
          propose-Proposal fuel height time max_tx_bytes s t msg here b stored (
            go s.is_exec_eng_syncing (ltb 0 txs) (ltb max_tx_bytes (max_bytes env * 9 / 10))
              (height == 1) e) in
        (
          p,
          (parse_and_verify_proposed_payload_iff env v msg head terence p there.head_eq status).1
              ((eq_iff msg.authority env.module_address).1 authority, read, follows),
          rw withdrawals (
              compare_withdrawals-owed_by env v max f g xs ys there.max_eq small there.queue
                there.rewards),
        )
      where
        go :
            (b1 b2 b3 b4 : Bool)
            → ◌≡◌ {A = Option (Outcome (List MsgExecutionPayload) × State X)}
                (if b1
                  then some (err (cause exec_eng_syncing ∷ []), s)
                  else if b2
                  then some (err [], s)
                  else if b3
                  then some (err [], s)
                  else if b4
                  then some (ok [], s)
                  else propose env fuel height time max_tx_bytes s)
                (some (ok (msg ∷ []), t))
            → propose env fuel height time max_tx_bytes s ≡ some (ok (msg ∷ []), t)
        go true b2 b3 b4 e = ground arith
        go false true b3 b4 e = ground arith
        go false false true b4 e = ground arith
        go false false false true e = ground arith
        go false false false false e = e
