-- ===== src/App/Router/Admits.antt =====
-- Which proposals are accepted: the empty first one, and those that carry one payload that the engine
-- accepts.
use story.Base.{
  ℕ, ◌≡◌, ◌≢◌, ◌∙◌, ◌↔◌, ◌⊎◌, inl, inr, refl, ap, true, Bool-cases, Option, none, some, List, [],
  ◌∷◌, ◌==◌, ==_iff, ltb, length, arith, if◌then◌else◌,
}
use story.Action.{Outcome, ok, err, panic, Done}
use story.Engine.Types.{MsgExecutionPayload}
use story.Engine.State.{State}
use story.Engine.Proposal.{propose_execution_payload}
use story.App.Votes.{Vote, has_quorum}
use story.App.Tx.{Tx, Msg, execution_payload, other, validate_tx}
use story.App.Router.{
  Verdict, accept, reject, RequestProcessProposal, Env, route_msgs, process_tx, process_txs,
  process_proposal,
}

module _ {X : Type 0} (env : Env X) (fuel : ℕ) (s t : State X) where
  -- The messages are one payload, which the engine accepts.
  pub record Routed (msgs : List Msg) : Type 0 where
    pub msg : MsgExecutionPayload
    pub msgs_eq : msgs ≡ execution_payload msg ∷ []
    pub accepted : propose_execution_payload env.engine fuel msg s ≡ some (ok tt, t)

  -- One transaction, in a proposal that shows a quorum of votes.
  pub record Carried (req : RequestProcessProposal) : Type 0 where
    pub raw : List ℕ
    pub tx : Tx
    pub txs_eq : req.txs ≡ raw ∷ []
    pub quorum : has_quorum req.votes ≡ true
    pub decoded : env.tx_decoder raw ≡ ok tx
    pub validated : validate_tx env.module_account tx ≡ ok tt
    pub routed : Routed tx.msgs

  abbrev pub Admits : RequestProcessProposal → Type 0
  Admits req = ((req.height ≡ 1) × (req.txs ≡ []) × (s ≡ t)) ⊎ ((req.height ≢ 1) × Carried req)

abbrev final : {S A : Type 0} → S → Option (Outcome A × S) → S
final d none = d
final d (some p) = p.1

module _ {X : Type 0} (env : Env X) (fuel : ℕ) where
  -- No message is routed once the count is used up.
  spent :
      (msgs : List Msg) (s t : State X)
      → route_msgs env fuel 0 msgs s ≡ some (ok accept, t)
      → (msgs ≡ []) × (s ≡ t)
  unfolding route_msgs
  spent [] s t h = (refl, ap (final s) h)
  spent (other ∷ msgs) s t h = ground arith
  spent (execution_payload msg ∷ msgs) s t h = ground arith

  route_msgs-Routed :
      (msgs : List Msg) (s t : State X)
      → route_msgs env fuel 1 msgs s ≡ some (ok accept, t)
      → Routed env fuel s t msgs
  unfolding route_msgs
  route_msgs-Routed [] s t h = ground arith
  route_msgs-Routed (other ∷ msgs) s t h = ground arith
  route_msgs-Routed (execution_payload msg ∷ msgs) s t h =
      go (propose_execution_payload env.engine fuel msg s) refl h
    where
      go :
          (r : Option (Outcome Done × State X))
          → propose_execution_payload env.engine fuel msg s ≡ r
          → ◌≡◌ {A = Option (Outcome Verdict × State X)}
              (elim r [
                | none ↦ none
                | some p ↦ elim p.0 [
                  | ok _ ↦ route_msgs env fuel 0 msgs p.1
                  | err e ↦ some (ok reject, p.1)
                  | panic ↦ some (panic, p.1)
                ]
              ])
              (some (ok accept, t))
          → Routed env fuel s t (execution_payload msg ∷ msgs)
      go none e h = ground arith
      go (some (ok _, u)) e h =
          let (all, same) = spent msgs u t h in
          record {
            msg = msg;
            msgs_eq = ap (λ ms. execution_payload msg ∷ ms) all;
            accepted = e ∙ ap (λ u. some (ok tt, u)) same;
          }
      go (some (err x, u)) e h = ground arith
      go (some (panic, u)) e h = ground arith

  Routed-route_msgs :
      (msgs : List Msg) (s t : State X)
      → Routed env fuel s t msgs
      → route_msgs env fuel 1 msgs s ≡ some (ok accept, t)
  unfolding route_msgs
  Routed-route_msgs msgs s t r = rw (r.msgs_eq) (rw (r.accepted, route_msgs) refl)

  module _ (raw : List ℕ) (s t : State X) where
    -- What an accepted transaction has passed
    abbrev Passed : Type 0
    Passed =
        (tx : Tx) × (env.tx_decoder raw ≡ ok tx)
        × (validate_tx env.module_account tx ≡ ok tt)
        × Routed env fuel s t tx.msgs

    process_tx-Passed : process_tx env fuel raw s ≡ some (ok accept, t) → Passed
    unfolding process_tx
    process_tx-Passed h = decode (env.tx_decoder raw) refl h
      where
        validate :
            (tx : Tx) (v : Outcome Done)
            → env.tx_decoder raw ≡ ok tx
            → validate_tx env.module_account tx ≡ v
            → ◌≡◌ {A = Option (Outcome Verdict × State X)}
                (elim v [
                  | err e ↦ some (ok reject, s)
                  | panic ↦ some (panic, s)
                  | ok _ ↦ route_msgs env fuel 1 tx.msgs s
                ])
                (some (ok accept, t))
            → Passed
        validate tx (ok _) e f h = (tx, e, f, route_msgs-Routed tx.msgs s t h)
        validate tx (err x) e f h = ground arith
        validate tx panic e f h = ground arith

        decode :
            (r : Outcome Tx)
            → env.tx_decoder raw ≡ r
            → ◌≡◌ {A = Option (Outcome Verdict × State X)}
                (elim r [
                  | err e ↦ some (ok reject, s)
                  | panic ↦ some (panic, s)
                  | ok tx ↦ elim (validate_tx env.module_account tx) [
                    | err e ↦ some (ok reject, s)
                    | panic ↦ some (panic, s)
                    | ok _ ↦ route_msgs env fuel 1 tx.msgs s
                  ]
                ])
                (some (ok accept, t))
            → Passed
        decode (ok tx) e h = validate tx (validate_tx env.module_account tx) e refl h
        decode (err x) e h = ground arith
        decode panic e h = ground arith

  module _ (votes : List Vote) (s t : State X) where
    process_txs-Passed :
        (txs : List (List ℕ))
        → process_txs env fuel votes txs s ≡ some (ok accept, t)
        → (raw : List ℕ) × (txs ≡ raw ∷ []) × (has_quorum votes ≡ true) × Passed raw s t
    unfolding process_txs
    process_txs-Passed [] h = ground arith
    process_txs-Passed (raw ∷ []) h = elim (Bool-cases (has_quorum votes)) [
      | inl q ↦ (raw, refl, q, process_tx-Passed raw s t (rw q at h))
      | inr q ↦ let h' = rw q at h in ground arith
    ]
    process_txs-Passed (raw ∷ _ ∷ _) h = ground arith

  module _ (s t : State X) where
    first_empty :
        (txs : List (List ℕ))
        → ◌≡◌ {A = Option (Outcome Verdict × State X)}
            (if ltb 0 (length txs) then some (ok reject, s) else some (ok accept, s))
            (some (ok accept, t))
        → (txs ≡ []) × (s ≡ t)
    first_empty [] h = (refl, ap (final s) h)
    first_empty (raw ∷ txs) h = ground arith

    process_proposal-Admits :
        (req : RequestProcessProposal)
        → process_proposal env fuel req s ≡ some (ok accept, t)
        → Admits env fuel s t req
    unfolding process_proposal
    process_proposal-Admits req h = elim (Bool-cases (req.height == 1)) [
      | inl e ↦
          let (empty, same) = first_empty req.txs (rw e at h) in
          inl ((==_iff req.height 1).0 e, empty, same)
      | inr e ↦
          let (raw, one, quorum, (tx, decoded, validated, routed)) =
            process_txs-Passed req.votes s t req.txs (rw e at h) in
          inr (
            (λ (k : req.height ≡ 1). cc ((==_iff req.height 1).1 k)),
            record {
              raw = raw;
              tx = tx;
              txs_eq = one;
              quorum = quorum;
              decoded = decoded;
              validated = validated;
              routed = routed;
            },
          )
    ]

    Carried-process_txs :
        (req : RequestProcessProposal)
        → Carried env fuel s t req
        → process_txs env fuel req.votes req.txs s ≡ some (ok accept, t)
    unfolding process_txs process_tx
    Carried-process_txs req c = rw (c.txs_eq) (
        rw (c.quorum, process_txs)
          (rw (c.decoded, process_tx)
            (rw (c.validated, process_tx) (Routed-route_msgs c.tx.msgs s t c.routed))))

    Admits-process_proposal :
        (req : RequestProcessProposal)
        → Admits env fuel s t req
        → process_proposal env fuel req s ≡ some (ok accept, t)
    unfolding process_proposal
    Admits-process_proposal req (inl (first, empty, same)) =
        rw (first, empty) (ap (λ u. some (ok accept, u)) same)
    Admits-process_proposal req (inr (later, c)) = elim (Bool-cases (req.height == 1)) [
      | inl e ↦ absurd (later ((==_iff req.height 1).0 e))
      | inr e ↦ rw e (Carried-process_txs req c)
    ]

  -- A proposal is accepted, and leaves the state `t`, exactly when it is the first one and empty, or
  -- not the first one, with a quorum of votes and one transaction that decodes, passes `validateTx`
  -- and holds one message, a payload that the engine accepts.
  pub process_proposal_iff :
      (req : RequestProcessProposal) (s t : State X)
      → (process_proposal env fuel req s ≡ some (ok accept, t)) ↔ Admits env fuel s t req
  process_proposal_iff req s t = (process_proposal-Admits s t req, Admits-process_proposal s t req)
