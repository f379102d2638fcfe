-- ===== src/Engine/Finalize/Head.antt =====
-- The execution head after a finalized block.
use story.Base.{
  ℕ, ◌≡◌, refl, sym, ap, Bool, true, false, not, Option, none, some, [], ◌∷◌, if◌then◌else◌, arith,
}
use story.Errors.{cause, not_found}
use story.Action.{Outcome, ok, err, panic, Done}
use story.Engine.Types.{ExecutableData, ExecutionHead, MsgExecutionPayload}
use story.Engine.Convert.{slice}
use story.Engine.State.{Env, State, update_execution_head}
use story.Engine.Payload.{parse_and_verify_proposed_payload}
use story.Engine.Withdrawals.{dequeue_withdrawals}
use story.Engine.Events.{canceled}
use story.Engine.Retry.{once, retry_forever, ◌>>◌}
use story.Engine.Retry.Ends.{bind_ok_inv}
use story.Engine.Finalize.{
  push_finalized, update_forkchoice, deliver_events, finalize_payload, execution_payload,
}

-- The head that a payload makes.
abbrev pub head_of : ℕ → ExecutableData → ExecutionHead
head_of height p = record {
  created_height = height;
  block_height = p.number;
  block_hash = p.block_hash;
  block_time = p.timestamp;
}

abbrev state_of : {S A : Type 0} → S → Option (Outcome A × S) → S
state_of d none = d
state_of d (some p) = p.1

updated :
    {X : Type 0} (height : ℕ) (p : ExecutableData) (s t : State X)
    → once (update_execution_head height p) s ≡ some (ok tt, t)
    → t.head ≡ some (head_of height p)
unfolding update_execution_head
updated {X} height p s t h = go s.head h
  where
    go :
        (o : Option ExecutionHead)
        → ◌≡◌ {A = Option (Outcome Done × State X)}
            (some (elim o [
              | none ↦ (err (cause not_found ∷ []), s)
              | some _ ↦ (ok tt, record s { head = some (head_of height p) })
            ]))
            (some (ok tt, t))
        → t.head ≡ some (head_of height p)
    go none h = ground arith
    go (some o) h = sym (ap (λ q. (state_of s q).head) h)

module _ {X : Type 0} (env : Env X) (fuel : ℕ) (msg : MsgExecutionPayload) where
  finalize_head :
      (p : ExecutableData) (s t : State X)
      → finalize_payload env fuel msg p s ≡ some (ok tt, t)
      → t.head ≡ some (head_of env.staking.block_height p)
  unfolding finalize_payload
  finalize_head p s t h =
      let (_, s₁, _, h₁) =
        bind_ok_inv (once (dequeue_withdrawals env (slice p.withdrawals)))
          (λ _.
            retry_forever (canceled env) (push_finalized env p) fuel
            >> (retry_forever (canceled env) (update_forkchoice env p) fuel
                >> (deliver_events env msg
                    >> once (update_execution_head env.staking.block_height p))))
          s t tt h in
      let (_, s₂, _, h₂) =
        bind_ok_inv (retry_forever (canceled env) (push_finalized env p) fuel)
          (λ _.
            retry_forever (canceled env) (update_forkchoice env p) fuel
            >> (deliver_events env msg >> once (update_execution_head env.staking.block_height p)))
          s₁ t tt h₁ in
      let (_, s₃, _, h₃) =
        bind_ok_inv (retry_forever (canceled env) (update_forkchoice env p) fuel)
          (λ _. deliver_events env msg >> once (update_execution_head env.staking.block_height p))
          s₂ t tt h₂ in
      let (_, s₄, _, h₄) =
        bind_ok_inv (deliver_events env msg)
          (λ _. once (update_execution_head env.staking.block_height p)) s₃ t tt h₃ in
      updated env.staking.block_height p s₄ t h₄

  -- A finalized payload that is processed is one that was read from the message and follows the head
  -- before, and the head after is the payload's number, hash and time.
  pub execution_payload-head :
      (s t : State X)
      → execution_payload env fuel msg s ≡ some (ok tt, t)
      → (p : ExecutableData) × (parse_and_verify_proposed_payload env msg s ≡ ok p)
        × (t.head ≡ some (head_of env.staking.block_height p))
  unfolding execution_payload
  execution_payload-head s t h =
      go env.is_finalize_mode (parse_and_verify_proposed_payload env msg s) refl h
    where
      go :
          (b : Bool) (r : Outcome ExecutableData)
          → parse_and_verify_proposed_payload env msg s ≡ r
          → ◌≡◌ {A = Option (Outcome Done × State X)}
              (if not b then some (err [], s) else elim r [
                | err e ↦ some (err e, s)
                | panic ↦ some (panic, s)
                | ok payload ↦ finalize_payload env fuel msg payload s
              ])
              (some (ok tt, t))
          → (p : ExecutableData) × (parse_and_verify_proposed_payload env msg s ≡ ok p)
            × (t.head ≡ some (head_of env.staking.block_height p))
      go false r e h = ground arith
      go true (ok p) e h = (p, e, finalize_head p s t h)
      go true (err x) e h = ground arith
      go true panic e h = ground arith
