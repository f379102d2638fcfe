-- ===== src/Engine/Build/Promise.antt =====
-- abci.go, `PrepareProposal`: from the attributes of a build to the payload that is fetched, over what
-- the engine API promises.
use story.Base.{
  ℕ, ◌+◌, ◌%◌, ◌^◌, ◌≤◌, ◌<◌, ◌≡◌, refl, sym, ap, subst, ◌∙◌, Bool, Option, none, some, List, [],
  u64_mod, arith, if◌then◌else◌,
}
use story.Action.{Outcome, ok, err, panic}
use story.Staking.Types.{ElWithdrawal}
use story.Engine.Types.{ExecutableData, ExecutionHead, ForkChoiceResponse}
use story.Engine.State.{Env, State, get_execution_head}
use story.Engine.Payload.Sound.{Follows}
use story.Engine.Withdrawals.Compare.{pointers}
use story.Engine.Proposal.{is_syncing, is_invalid}
use story.Engine.Finalize.{finality}
use story.Engine.Events.{canceled}
use story.Engine.Retry.Ends.{Answers, now, later}
use story.Engine.Build.{
  build_attributes, build_timestamp, start_build, try_build, try_fetch, judge_build, judge_fetch,
}
use story.Engine.Build.Peeked.{build_timestamp_window}

module _ {X : Type 0} (env : Env X) (head : ExecutionHead) (ws : List ElWithdrawal) where
  -- A payload that the execution client builds on the head with the withdrawals, at a timestamp
  pub record Fulfils (timestamp : ℕ) (p : ExecutableData) : Type 0 where
    pub number_eq : p.number ≡ (head.block_height + 1) % u64_mod
    pub parent_eq : p.parent_hash ≡ head.block_hash
    pub timestamp_eq : p.timestamp ≡ timestamp
    pub random_eq : p.random ≡ head.block_hash
    pub withdrawals_eq : p.withdrawals ≡ some (pointers ws)
    pub transactions : List (List ℕ)
    pub transactions_eq : p.transactions ≡ some transactions
    pub blob_gas : ℕ
    pub blob_gas_eq : p.blob_gas_used ≡ some blob_gas
    pub excess : ℕ
    pub excess_eq : p.excess_blob_gas ≡ some excess
    pub witness_eq : p.execution_witness ≡ none
    pub base_fee : p.base_fee_per_gas < 256 ^ 32

  -- What the engine API documents: a forkchoice update with attributes promises a payload under an
  -- identifier, other calls do not take it back, and the payload fetched is built as it was asked.
  pub record Builds (Promised : ℕ → ℕ → X → Type 0) : Type 0 where
    pub promises :
        (time id : ℕ) (x : X) (fcr : ForkChoiceResponse)
        → let (r, y) =
            env.engine_cl.forkchoice_updated_v3
              (finality env head.block_hash)
              (some (build_attributes env head ws time))
              x in
          r ≡ ok fcr → fcr.payload_id ≡ some id → Promised (build_timestamp env head time) id y
    pub keeps :
        (timestamp id : ℕ) (x : X)
        → Promised timestamp id x
        → Promised timestamp id (env.engine_cl.get_payload_v3 id x).1
    pub delivers :
        (timestamp id : ℕ) (x : X) (p : ExecutableData)
        → Promised timestamp id x
        → (env.engine_cl.get_payload_v3 id x).0 ≡ ok p
        → Fulfils timestamp p

  -- The JSON codec of `engine.ExecutableData` reads back a payload of the client that it wrote, and
  -- finds no unknown field in it.
  abbrev pub ReadsJson : Type 0
  ReadsJson =
      (timestamp : ℕ) (p : ExecutableData) (json : List ℕ)
      → Fulfils timestamp p
      → env.codecs.marshal_payload p ≡ ok json
      → (env.codecs.unmarshal_payload json ≡ ok p) × (env.codecs.decode_strictly json ≡ ok tt)

  -- A build that was started at a time which is not after the block's
  abbrev pub Due : (ℕ → ℕ → X → Type 0) → ℕ → X → Type 0
  Due Promised id x =
      (time : ℕ) × (time ≤ env.staking.block_time) × Promised (build_timestamp env head time) id x

  -- A payload built for a block that is not later than this one follows the head.
  pub Fulfils-Follows :
      (time : ℕ) (p : ExecutableData)
      → head.block_time + 1 < u64_mod
      → time ≤ env.staking.block_time
      → Fulfils (build_timestamp env head time) p
      → Follows env head p
  Fulfils-Follows time p h b f =
      let (low, high) = build_timestamp_window env head time h b in
      record {
        number_eq = f.number_eq;
        parent_eq = f.parent_eq;
        not_early = rw f.timestamp_eq low;
        not_late = rw f.timestamp_eq high;
        random_eq = f.random_eq;
        has_withdrawals = rw f.withdrawals_eq refl;
        has_blob_gas = rw f.blob_gas_eq refl;
        has_excess = rw f.excess_eq refl;
        no_witness = rw f.witness_eq refl;
      }

  module _ (Promised : ℕ → ℕ → X → Type 0) (client : Builds Promised) where
    judge_build_inv :
        (id : ℕ) (r : Outcome ForkChoiceResponse)
        → judge_build env r ≡ ok (some id)
        → (fcr : ForkChoiceResponse) × (r ≡ ok fcr) × (fcr.payload_id ≡ some id)
    judge_build_inv id (err e) h = ground arith
    judge_build_inv id panic h = ground arith
    judge_build_inv id (ok fcr) h = (
      fcr,
      refl,
      go (is_syncing fcr.payload_status) (is_invalid fcr.payload_status) fcr.payload_id h,
    )
      where
        go :
            (b c : Bool) (o : Option ℕ)
            → ◌≡◌ {A = Outcome (Option ℕ)}
                (if b
                  then err []
                  else if c
                  then err []
                  else elim o [ none ↦ err [] | some id ↦ ok (some id) ])
                (ok (some id))
            → o ≡ some id
        go b c none h = ground arith
        go b c (some i) h = ground arith

    judge_fetch_inv :
        (p : ExecutableData) (r : Outcome ExecutableData)
        → judge_fetch env r ≡ ok (some p)
        → r ≡ ok p
    judge_fetch_inv p (ok q) h = cc
    judge_fetch_inv p (err e) h = ground arith
    judge_fetch_inv p panic h = cc

    -- An attempt to build leaves the head where it is, and keeps its promise.
    try_build_lem :
        (time : ℕ) (s : State X)
        → s.head ≡ some head
        → let (r, t) = try_build env ws time s in
          (t.head ≡ some head)
          × ((id : ℕ)
              → r ≡ ok (some id)
              → Promised (build_timestamp env head time) id t.staking.ext)
    unfolding try_build start_build get_execution_head
    try_build_lem time s h =
        rw (h, start_build, get_execution_head)
          (
            h,
            λ id e.
                let (fcr, got, at) = judge_build_inv id _ e in
                client.promises time id s.staking.ext fcr got at,
          )

    pub Answers-try_build :
        (time id k : ℕ) (s t : State X)
        → s.head ≡ some head
        → Answers (canceled env) (try_build env ws time) k s id t
        → Promised (build_timestamp env head time) id t.staking.ext
    Answers-try_build time id k s t h (now e c) =
        let kept = (try_build_lem time s h).1 id (ap (λ p. p.0) e) in
        subst (λ p. Promised (build_timestamp env head time) id p.1.staking.ext) e kept
    Answers-try_build time id k s u h (later {t = t} e c rest) =
        Answers-try_build time id _ t u (ap (λ p. p.1.head) (sym e) ∙ (try_build_lem time s h).0)
          rest

    try_fetch_lem :
        (timestamp id : ℕ) (s : State X)
        → Promised timestamp id s.staking.ext
        → let (r, t) = try_fetch env id s in
          Promised timestamp id t.staking.ext
          × ((p : ExecutableData) → r ≡ ok (some p) → Fulfils timestamp p)
    unfolding try_fetch
    try_fetch_lem timestamp id s h = (
      client.keeps timestamp id s.staking.ext h,
      λ p e. client.delivers timestamp id s.staking.ext p h (judge_fetch_inv p _ e),
    )

    pub Answers-try_fetch :
        (timestamp id : ℕ) (p : ExecutableData) (k : ℕ) (s t : State X)
        → Promised timestamp id s.staking.ext
        → Answers (canceled env) (try_fetch env id) k s p t
        → Fulfils timestamp p
    Answers-try_fetch timestamp id p k s t h (now e c) =
        (try_fetch_lem timestamp id s h).1 p (ap (λ p. p.0) e)
    Answers-try_fetch timestamp id p k s u h (later {t = t} e c rest) =
        Answers-try_fetch timestamp id p _ t u
          (subst (λ q. Promised timestamp id q.1.staking.ext) e (try_fetch_lem timestamp id s h).0)
          rest
