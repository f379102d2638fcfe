-- ===== src/Engine/Proposal/Accepts.antt =====
-- What an accepted proposal has passed, and that all of it is enough.
use story.Base.{
  ℕ, ◌≡◌, ◌↔◌, refl, ap, subst, ◌∙◌, Bool, true, false, Option, some, map, ◌<◌, List, [], ◌∷◌,
  if◌then◌else◌, arith,
}
use story.Errors.{cause, exec_eng_syncing}
use story.Action.{Outcome, ok, err, panic, Done}
use story.Engine.Types.{ExecutableData, MsgExecutionPayload, valid}
use story.Engine.Convert.{slice}
use story.Engine.State.{Env, State, Log, call}
use story.Engine.Payload.{parse_and_verify_proposed_payload}
use story.Engine.Withdrawals.{compare_withdrawals}
use story.Evm.{EvmEvent}
use story.Engine.Events.{
  canceled, event_of_log, verify_all, retry_error, evm_events, evm_events_equal,
}
use story.Engine.Retry.{Run, once, retry_forever, ◌>>=◌, ◌>>◌}
use story.Engine.Retry.Ends.{
  bind_ok, bind_ok_inv, once_inv, Answers, Answers-retry_forever, retry_forever-Answers,
}
use story.Engine.Proposal.Pushed.{pushed_valid, valid_pushed}
use story.Engine.Proposal.{push_payload, push_proposal, check_proposal, propose_execution_payload}

-- The payload of an accepted proposal, and the states on the way from the proposal's to the last: it was
-- read and follows the head, its withdrawals are those that the queues owe, the execution client has
-- answered VALID for it after some errors, it has then given the logs of the parent after some errors,
-- and these are the events of the message.
pub record Accepted {X : Type 0} (env : Env X) (fuel : ℕ) (msg : MsgExecutionPayload)
    (p : ExecutableData) (s t : State X) : Type 0 where
  pub parsed : parse_and_verify_proposed_payload env msg s ≡ ok p
  pub before : State X
  pub compared : compare_withdrawals env (slice p.withdrawals) s ≡ (ok tt, before)
  pub pushes : ℕ
  pub pushes_lt : pushes < fuel
  pub after : State X
  pub pushed : Answers (canceled env) (retry_error (push_payload env p)) pushes before valid after
  pub fetches : ℕ
  pub fetches_lt : fetches < fuel
  pub logs : List Log
  pub fetched :
      Answers
        (canceled env)
        (retry_error (call (env.engine_cl.filter_logs p.parent_hash)))
        fetches
        after
        logs
        t
  pub events : List EvmEvent
  pub verified : verify_all (map event_of_log logs) ≡ ok events
  pub equal : evm_events_equal env.codecs.proto_equal events msg.prev_payload_events ≡ ok tt

module _ {X : Type 0} (env : Env X) (fuel : ℕ) (msg : MsgExecutionPayload) where
  compare_events : List EvmEvent → Run (State X) Done
  compare_events events =
      once (λ s. (evm_events_equal env.codecs.proto_equal events msg.prev_payload_events, s))

  fetch_events : ℕ → Run (State X) Done
  unfolding compare_events
  fetch_events parent_hash = evm_events env fuel parent_hash >>= compare_events

  verify_logs : List Log → Run (State X) (List EvmEvent)
  verify_logs logs = once (λ s. (verify_all (map event_of_log logs), s))

  push : ExecutableData → Run (State X) Done
  push p = retry_forever (canceled env) (push_proposal env p) fuel

  fetch_logs : ExecutableData → Run (State X) (List Log)
  fetch_logs p =
      retry_forever (canceled env) (retry_error (call (env.engine_cl.filter_logs p.parent_hash)))
        fuel

  check_sound :
      (p : ExecutableData) (s t : State X)
      → parse_and_verify_proposed_payload env msg s ≡ ok p
      → check_proposal env fuel msg p s ≡ some (ok tt, t)
      → Accepted env fuel msg p s t
  unfolding check_proposal evm_events compare_events fetch_events verify_logs push fetch_logs
  check_sound p s t e h =
      let (_, s₁, compared, rest) =
        bind_ok_inv (once (compare_withdrawals env (slice p.withdrawals)))
          (λ _. push p >> fetch_events p.parent_hash) s t tt h in
      let (_, s₂, pushed, asked) =
        bind_ok_inv (push p) (λ _. fetch_events p.parent_hash) s₁ t tt rest in
      let (events, s₃, got, equal) =
        bind_ok_inv (evm_events env fuel p.parent_hash) compare_events s₂ t tt asked in
      let (logs, s₄, fetched, verified) = bind_ok_inv (fetch_logs p) verify_logs s₂ s₃ events got in
      let (k, k_lt, answers) =
        Answers-retry_forever (canceled env) (push_proposal env p) fuel s₁ s₂ tt pushed in
      let (m, m_lt, logged) =
        Answers-retry_forever (canceled env)
          (retry_error (call (env.engine_cl.filter_logs p.parent_hash))) fuel s₂ s₄ logs fetched in
      let all = once_inv (λ u. (verify_all (map event_of_log logs), u)) s₄ s₃ events verified in
      let last =
        once_inv (λ u. (evm_events_equal env.codecs.proto_equal events msg.prev_payload_events, u))
          s₃ t tt equal in
      let end : s₄ ≡ t = ap (λ q. q.1) all ∙ ap (λ q. q.1) last in
      record {
        parsed = e;
        before = s₁;
        compared = once_inv (compare_withdrawals env (slice p.withdrawals)) s s₁ tt compared;
        pushes = k;
        pushes_lt = k_lt;
        after = s₂;
        pushed = pushed_valid env p k s₁ s₂ answers;
        fetches = m;
        fetches_lt = m_lt;
        logs = logs;
        fetched =
            subst
              (λ u.
                Answers (canceled env)
                  (retry_error (call (env.engine_cl.filter_logs p.parent_hash))) m s₂ logs u)
              end logged;
        events = events;
        verified = ap (λ q. q.0) all;
        equal = ap (λ q. q.0) last;
      }

  check_complete :
      (p : ExecutableData) (s t : State X)
      → Accepted env fuel msg p s t
      → check_proposal env fuel msg p s ≡ some (ok tt, t)
  unfolding check_proposal evm_events compare_events fetch_events verify_logs push fetch_logs
  check_complete p s t a =
      let pushed =
        retry_forever-Answers (canceled env) (push_proposal env p) a.pushes fuel a.before a.after tt
          (valid_pushed env p a.pushes a.before a.after a.pushed) a.pushes_lt in
      let fetched =
        retry_forever-Answers (canceled env)
          (retry_error (call (env.engine_cl.filter_logs p.parent_hash))) a.fetches fuel a.after t
          a.logs a.fetched a.fetches_lt in
      let got : evm_events env fuel p.parent_hash a.after ≡ some (ok a.events, t) =
        bind_ok (fetch_logs p) verify_logs a.after t a.logs fetched
        ∙ ap (λ r. some (r, t)) a.verified in
      bind_ok (once (compare_withdrawals env (slice p.withdrawals)))
        (λ _. push p >> fetch_events p.parent_hash) s a.before tt (ap some a.compared)
      ∙ bind_ok (push p) (λ _. fetch_events p.parent_hash) a.before a.after tt pushed
      ∙ bind_ok (evm_events env fuel p.parent_hash) compare_events a.after t a.events got
      ∙ ap (λ r. some (r, t)) a.equal

  -- A proposal is accepted, leaving a state, exactly when the execution client is not known to be
  -- syncing and there is a payload that was read and follows the head, whose withdrawals are those that
  -- the queues owe, for which the client answers VALID after errors only, and whose parent's logs, which
  -- the client then gives after errors only, are the events of the message. The errors of each loop are
  -- fewer than the fuel.
  pub propose_execution_payload_iff :
      (s t : State X)
      → (propose_execution_payload env fuel msg s ≡ some (ok tt, t))
        ↔ ((s.is_exec_eng_syncing ≡ false) × ((p : ExecutableData) × Accepted env fuel msg p s t))
  unfolding propose_execution_payload parse_and_verify_proposed_payload
  propose_execution_payload_iff s t = (
    λ h. go s.is_exec_eng_syncing (parse_and_verify_proposed_payload env msg s) refl h,
    λ (idle, (p, a)). rw (idle, a.parsed) (check_complete p s t a),
  )
    where
      go :
          (b : Bool) (r : Outcome ExecutableData)
          → parse_and_verify_proposed_payload env msg s ≡ r
          → ◌≡◌ {A = Option (Outcome Done × State X)}
              (if b then some (err (cause exec_eng_syncing ∷ []), s) else elim r [
                | err e ↦ some (err e, s)
                | panic ↦ some (panic, s)
                | ok payload ↦ check_proposal env fuel msg payload s
              ])
              (some (ok tt, t))
          → (b ≡ false) × ((p : ExecutableData) × Accepted env fuel msg p s t)
      go true r e h = ground arith
      go false (ok p) e h = (refl, (p, check_sound p s t e h))
      go false (err x) e h = ground arith
      go false panic e h = ground arith
