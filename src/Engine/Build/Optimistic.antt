-- ===== src/Engine/Build/Optimistic.antt =====
-- abci.go, `PostFinalize`: what a build that is started after a block leaves alone.
use story.Base.{
  ℕ, ◌+◌, ◌≡◌, ◌⊎◌, inl, inr, refl, sym, ap, ◌∙◌, Bool, true, false, not, Option, none, some, List,
  [], ◌∷◌, if◌then◌else◌,
}
use story.Errors.{cause, not_found}
use story.Action.{Outcome, ok, err, panic, Done}
use story.Staking.Types.{ElWithdrawal}
use story.Engine.Types.{ExecutionHead, ForkChoiceResponse}
use story.Engine.State.{Env, State, call, get_execution_head}
use story.Engine.Finalize.{finality}
use story.Engine.Proposal.{is_syncing, is_invalid}
use story.Engine.Build.{
  build_attributes, set_optimistic_payload, peek_withdrawals, start_build, start_optimistic,
  is_next_proposer, started, post_finalize,
}

-- A state after a build differs from the one before in what lies outside the modules and in the
-- optimistic payload, which is new only for the next height.
pub record Built {X : Type 0} (height : ℕ) (s t : State X) : Type 0 where
  pub same : t ≡ record s {
    staking = record (s.staking) { ext = t.staking.ext };
    payload_id = t.payload_id;
    payload_height = t.payload_height;
  }
  pub next : (t.payload_height ≡ s.payload_height) ⊎ (t.payload_height ≡ height + 1)

-- No error comes out
abbrev pub is_err : {A : Type 0} → Outcome A → Bool
is_err (err e) = true
is_err _ = false

module _ {X : Type 0} (env : Env X) (s : State X) where
  abbrev Quiet : Outcome Done × State X → Type 0
  Quiet p = (is_err p.0 ≡ false) × Built env.staking.block_height s p.1

  stay : Built env.staking.block_height s s
  stay = record { same = refl; next = inl refl }

  -- Only what lies outside the modules has changed.
  abbrev Outside : State X → Type 0
  Outside t = t ≡ record s { staking = record (s.staking) { ext = t.staking.ext } }

  start_build-Outside : (ws : List ElWithdrawal) (time : ℕ) → Outside (start_build env ws time s).1
  unfolding start_build get_execution_head
  start_build-Outside ws time = go s.head
    where
      read : Outcome ExecutionHead → Outcome ForkChoiceResponse × State X
      read (err e) = (err e, s)
      read panic = (panic, s)
      read (ok head) =
          call
            (env.engine_cl.forkchoice_updated_v3 (finality env head.block_hash)
              (some (build_attributes env head ws time)))
            s

      go :
          (o : Option ExecutionHead)
          → Outside (read (elim o [ none ↦ err (cause not_found ∷ []) | some h ↦ ok h ])).1
      go none = refl
      go (some h) = refl

  Outside-Built : (t : State X) → Outside t → Built env.staking.block_height s t
  Outside-Built t e = record {
    same = e ∙ (λ i. record s {
      staking = record (s.staking) { ext = t.staking.ext };
      payload_id = (sym e i).payload_id;
      payload_height = (sym e i).payload_height;
    });
    next = inl (ap (λ u. u.payload_height) e);
  }

  kept-Built :
      (id : ℕ) (t : State X)
      → Outside t
      → Built env.staking.block_height s
          (set_optimistic_payload id (env.staking.block_height + 1) t)
  unfolding set_optimistic_payload
  kept-Built id t e = record {
    same = λ i. record (e i) { payload_id = id; payload_height = env.staking.block_height + 1 };
    next = inr refl;
  }

  started-Quiet :
      (r : Outcome ForkChoiceResponse) (t : State X)
      → Outside t
      → Quiet (started env.staking.block_height (r, t))
  started-Quiet (err e) t o = (refl, Outside-Built t o)
  started-Quiet panic t o = (refl, Outside-Built t o)
  started-Quiet (ok fcr) t o =
      go (is_syncing fcr.payload_status) (is_invalid fcr.payload_status) fcr.payload_id
    where
      go :
          (b c : Bool) (id : Option ℕ)
          → Quiet (
              if b then (ok tt, t) else if c then (ok tt, t) else elim id [
                | none ↦ (ok tt, t)
                | some id ↦ (ok tt, set_optimistic_payload id (env.staking.block_height + 1) t)
              ])
      go true c id = (refl, Outside-Built t o)
      go false true id = (refl, Outside-Built t o)
      go false false none = (refl, Outside-Built t o)
      go false false (some id) = (refl, kept-Built id t o)

  start_optimistic-Quiet : Quiet (start_optimistic env s)
  unfolding start_optimistic
  start_optimistic-Quiet = go (peek_withdrawals env s)
    where
      go :
          (r : Outcome (List ElWithdrawal))
          → Quiet (elim r [
            | err e ↦ (ok tt, s)
            | panic ↦ (panic, s)
            | ok ws ↦ started env.staking.block_height (start_build env ws env.staking.block_time s)
          ])
      go (err e) = (refl, stay)
      go panic = (refl, stay)
      go (ok ws) =
          started-Quiet (start_build env ws env.staking.block_time s).0
            (start_build env ws env.staking.block_time s).1
            (start_build-Outside ws env.staking.block_time)

  -- The callback after a block returns no error, so that a failed build does not stop the node, and it
  -- changes no queue, no parameter, no head and no event: at most the optimistic payload, which is then
  -- for the next height.
  pub post_finalize-Built :
      (is_err (post_finalize env s).0 ≡ false)
      × Built env.staking.block_height s (post_finalize env s).1
  unfolding post_finalize
  post_finalize-Built =
      go env.build_optimistic s.is_exec_eng_syncing
        (is_next_proposer env env.staking.block_height s)
    where
      go :
          (b c : Bool) (r : Outcome Bool)
          → Quiet (
              if not b then (ok tt, s) else if c then (ok tt, s) else elim r [
                | err e ↦ (ok tt, s)
                | panic ↦ (panic, s)
                | ok next ↦ if not next then (ok tt, s) else start_optimistic env s
              ])
      go false c r = (refl, stay)
      go true true r = (refl, stay)
      go true false (err e) = (refl, stay)
      go true false panic = (refl, stay)
      go true false (ok false) = (refl, stay)
      go true false (ok true) = start_optimistic-Quiet
