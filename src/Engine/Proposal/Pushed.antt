-- ===== src/Engine/Proposal/Pushed.antt =====
-- The loop that pushes a proposed payload to the execution client.
use story.Base.{ℕ, ◌≡◌, refl, ap, Option, none, some, arith}
use story.Action.{Outcome, ok, err, panic, Done}
use story.Engine.Types.{ExecutableData, Status, valid, invalid, syncing, accepted}
use story.Engine.State.{Env, State}
use story.Engine.Events.{canceled, retry_error}
use story.Engine.Retry.Ends.{Answers, now, later}
use story.Engine.Proposal.{push_payload, judge_proposal, push_proposal}

module _ {X : Type 0} (env : Env X) (p : ExecutableData) where
  -- The statuses that end the loop with a value: VALID only
  judged_valid :
      (r : Outcome Status) (s t : State X)
      → ◌≡◌ {A = Outcome (Option Done) × State X} (judge_proposal env r, s) (ok (some tt), t)
      → (r ≡ ok valid) × (s ≡ t)
  judged_valid (ok valid) s t h = (refl, ap (λ q. q.1) h)
  judged_valid (ok invalid) s t h = ground arith
  judged_valid (ok syncing) s t h = ground arith
  judged_valid (ok accepted) s t h = ground arith
  judged_valid (err e) s t h = ground arith
  judged_valid panic s t h = ground arith

  -- What an attempt at the push makes of an answer: the value, or another attempt
  abbrev retried : Outcome Status → Outcome (Option Status)
  retried r = elim r [ ok a ↦ ok (some a) | err e ↦ ok none | panic ↦ panic ]

  judged_again :
      (r : Outcome Status) (s t : State X)
      → ◌≡◌ {A = Outcome (Option Done) × State X} (judge_proposal env r, s) (ok none, t)
      → ◌≡◌ {A = Outcome (Option Status) × State X} (retried r, s) (ok none, t)
  judged_again (ok valid) s t h = ground arith
  judged_again (ok invalid) s t h = ground arith
  judged_again (ok syncing) s t h = ground arith
  judged_again (ok accepted) s t h = ground arith
  judged_again (err e) s t h = ap (λ q. (ok none, q.1)) h
  judged_again panic s t h = ground arith

  tried_valid :
      (r : Outcome Status) (s t : State X)
      → ◌≡◌ {A = Outcome (Option Status) × State X} (retried r, s) (ok (some valid), t)
      → ◌≡◌ {A = Outcome (Option Done) × State X} (judge_proposal env r, s) (ok (some tt), t)
  tried_valid (ok valid) s t h = ap (λ q. (ok (some tt), q.1)) h
  tried_valid (ok invalid) s t h = ground arith
  tried_valid (ok syncing) s t h = ground arith
  tried_valid (ok accepted) s t h = ground arith
  tried_valid (err e) s t h = ground arith
  tried_valid panic s t h = ground arith

  tried_again :
      (r : Outcome Status) (s t : State X)
      → ◌≡◌ {A = Outcome (Option Status) × State X} (retried r, s) (ok none, t)
      → ◌≡◌ {A = Outcome (Option Done) × State X} (judge_proposal env r, s) (ok none, t)
  tried_again (ok st) s t h = ground arith
  tried_again (err e) s t h = ap (λ q. (ok none, q.1)) h
  tried_again panic s t h = ground arith

  -- The loop that pushes a proposal ends with a value exactly where errors of the client are followed
  -- by VALID.
  pub pushed_valid :
      (n : ℕ) (s t : State X)
      → Answers (canceled env) (push_proposal env p) n s tt t
      → Answers (canceled env) (retry_error (push_payload env p)) n s valid t
  unfolding push_proposal
  pushed_valid n s t (now e c) =
      let (answered, same) = judged_valid (push_payload env p s).0 (push_payload env p s).1 t e in
      now (λ i. (retried (answered i), same i)) c
  pushed_valid n s t (later {n = k} {t = u} e c h) =
      later (judged_again (push_payload env p s).0 (push_payload env p s).1 u e) c
        (pushed_valid k u t h)

  pub valid_pushed :
      (n : ℕ) (s t : State X)
      → Answers (canceled env) (retry_error (push_payload env p)) n s valid t
      → Answers (canceled env) (push_proposal env p) n s tt t
  unfolding push_proposal
  valid_pushed n s t (now e c) =
      now (tried_valid (push_payload env p s).0 (push_payload env p s).1 t e) c
  valid_pushed n s t (later {n = k} {t = u} e c h) =
      later (tried_again (push_payload env p s).0 (push_payload env p s).1 u e) c
        (valid_pushed k u t h)
