-- ===== src/Engine/Build/Message.antt =====
-- abci.go, `PrepareProposal`: the message of a payload, and what is read from it.
use story.Base.{
  ℕ, ◌≡◌, refl, ap, subst, ◌∙◌, Bool, true, false, none, some, List, [], ◌∷◌, arith, ltb,
  if◌then◌else◌,
}
use story.Action.{Outcome, ok, err, panic}
use story.Evm.{EvmEvent}
use story.Netconf.{is_terence}
use story.Staking.Types.{ElWithdrawal}
use story.Engine.Types.{ExecutableData, ExecutionHead, ExecutionPayloadDeneb, MsgExecutionPayload}
use story.Engine.Convert.{payload_to_proto}
use story.Engine.Convert.RoundTrip.{payload_from_proto-payload_to_proto}
use story.Engine.State.{Env, State}
use story.Engine.Payload.{parse_payload, validate_exec_payload}
use story.Engine.Events.{evm_events}
use story.Engine.Retry.{Run, once, ◌>>=◌}
use story.Engine.Retry.Ends.{bind_ok_inv, once_inv}
use story.Engine.Build.{payload_message, fit_message, build_message}
use story.Engine.Build.Promise.{Fulfils, ReadsJson}

module _ {X : Type 0} (env : Env X) (head : ExecutionHead) (ws : List ElWithdrawal) where
  -- What the message of a payload is to the one who reads it
  abbrev pub Reads : ExecutableData → MsgExecutionPayload → Type 0
  Reads p msg =
      (msg.authority ≡ env.module_address)
      × (terence : Bool) × (is_terence env.staking.chain_id env.staking.block_height ≡ ok terence)
      × (parse_payload env terence msg ≡ ok p)

  abbrev of_proto : ExecutionPayloadDeneb → List EvmEvent → MsgExecutionPayload
  of_proto m events = record {
    authority = env.module_address;
    execution_payload = none;
    execution_payload_deneb = some m;
    prev_payload_events = events;
  }

  abbrev of_json : List ℕ → List EvmEvent → MsgExecutionPayload
  of_json bytes events = record {
    authority = env.module_address;
    execution_payload = some bytes;
    execution_payload_deneb = none;
    prev_payload_events = events;
  }

  abbrev wrap_proto : List EvmEvent → Outcome ExecutionPayloadDeneb → Outcome MsgExecutionPayload
  wrap_proto events r = elim r [ err e ↦ err e | panic ↦ panic | ok m ↦ ok (of_proto m events) ]

  abbrev wrap_json : List EvmEvent → Outcome (List ℕ) → Outcome MsgExecutionPayload
  wrap_json events r = elim r [ err e ↦ err e | panic ↦ panic | ok j ↦ ok (of_json j events) ]

  pub payload_message-Reads :
      (timestamp : ℕ) (p : ExecutableData) (events : List EvmEvent) (msg : MsgExecutionPayload)
      → ReadsJson env head ws
      → Fulfils env head ws timestamp p
      → payload_message env p events ≡ ok msg
      → Reads p msg
  unfolding payload_message parse_payload validate_exec_payload
  payload_message-Reads timestamp p events msg json f e =
      go (is_terence env.staking.chain_id env.staking.block_height) refl e
    where
      go :
          (r : Outcome Bool)
          → is_terence env.staking.chain_id env.staking.block_height ≡ r
          → elim r [
            | err e ↦ err e
            | panic ↦ panic
            | ok true ↦ wrap_proto events (payload_to_proto p)
            | ok false ↦ wrap_json events (env.codecs.marshal_payload p)
          ]
            ≡ ok msg
          → Reads p msg
      go (err x) c e = ground arith
      go panic c e = ground arith
      go (ok true) c e =
          let (m, converted, back) =
            payload_from_proto-payload_to_proto p ws f.transactions f.blob_gas f.excess
              f.withdrawals_eq f.transactions_eq f.blob_gas_eq f.excess_eq f.witness_eq
              f.base_fee in
          let written = subst (λ r. wrap_proto events r ≡ ok msg) converted e in
          let same : of_proto m events ≡ msg = cc in subst (Reads p) same (refl, true, c, back)
      go (ok false) c e = go_json (env.codecs.marshal_payload p) refl e
        where
          go_json :
              (r : Outcome (List ℕ))
              → env.codecs.marshal_payload p ≡ r
              → wrap_json events r ≡ ok msg
              → Reads p msg
          go_json (err x) k e = ground arith
          go_json panic k e = ground arith
          go_json (ok bytes) k e =
              let (read, strict) = json timestamp p bytes f k in
              let same : of_json bytes events ≡ msg = cc in
              subst (Reads p) same (refl, false, c, rw (strict, parse_payload) read)

  -- The steps of `build_message` after each of its calls
  abbrev fitted : ℕ → MsgExecutionPayload → Run (State X) (List MsgExecutionPayload)
  fitted max msg = once (λ s. (fit_message env max msg, s))

  abbrev with_message :
      ℕ → ExecutableData → List EvmEvent → Run (State X) (List MsgExecutionPayload)
  with_message max p events = once (λ s. (payload_message env p events, s)) >>= fitted max

  abbrev with_events : ℕ → ℕ → ExecutableData → Run (State X) (List MsgExecutionPayload)
  with_events fuel max p = evm_events env fuel p.parent_hash >>= with_message max p

  fit_message_inv :
      (max : ℕ) (m msg : MsgExecutionPayload) → fit_message env max m ≡ ok (msg ∷ []) → m ≡ msg
  unfolding fit_message
  fit_message_inv max m msg e = go (env.codecs.tx_size m) e
    where
      go :
          (r : Outcome ℕ)
          → elim r [
            | err e ↦ err e
            | panic ↦ panic
            | ok size ↦ if ltb max size then err [] else ok (m ∷ [])
          ]
            ≡ ok (msg ∷ [])
          → m ≡ msg
      go (err x) e = ground arith
      go panic e = ground arith
      go (ok size) e = ground arith

  pub build_message_inv :
      (fuel max : ℕ) (p : ExecutableData) (msg : MsgExecutionPayload) (s t : State X)
      → build_message env fuel max p s ≡ some (ok (msg ∷ []), t)
      → (events : List EvmEvent) × (payload_message env p events ≡ ok msg)
  unfolding build_message
  build_message_inv fuel max p msg s t e =
      let (_, t0, _, rest) =
        bind_ok_inv (once (λ u. (payload_message env p [], u))) (λ _. with_events fuel max p) s t
          (msg ∷ []) e in
      let (events, t1, _, after) =
        bind_ok_inv (evm_events env fuel p.parent_hash) (λ events. with_message max p events) t0 t
          (msg ∷ []) rest in
      let (m, t2, written, end) =
        bind_ok_inv (once (λ u. (payload_message env p events, u))) (λ m. fitted max m) t1 t
          (msg ∷ []) after in
      let wrote =
        ap (λ q. q.0) (once_inv (λ u. (payload_message env p events, u)) t1 t2 m written) in
      let fits = ap (λ q. q.0) (once_inv (λ u. (fit_message env max m, u)) t2 t (msg ∷ []) end) in
      (events, wrote ∙ ap ok (fit_message_inv max m msg fits))
