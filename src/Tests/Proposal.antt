-- ===== src/Tests/Proposal.antt =====
-- The theorem on proposals at the test node, whose client builds one payload, for one timestamp.
use story.Base.{
  ℕ, ◌≡◌, refl, sym, subst, Bool, false, true, none, some, List, [], ◌∷◌, arith, if◌then◌else◌,
  ◌==◌,
}
use story.Action.{Outcome, ok, err}
use story.Netconf.{is_terence, get_upgrade_height}
use story.Staking.Params.{max_withdrawal_per_block, read_params}
use story.Staking.Types.{ElWithdrawal}
use story.Engine.Types.{ExecutableData, ForkChoiceResponse, MsgExecutionPayload, valid}
use story.Engine.Convert.{slice, payload_to_proto, big_endian, fill_bytes, with_gas}
use story.Engine.State.{Env, get_execution_head}
use story.Engine.Payload.{parse_and_verify_proposed_payload}
use story.Engine.Withdrawals.{compare_withdrawals}
use story.Engine.Build.{
  build_timestamp, prepare_proposal, propose, peek_withdrawals, choose_payload, try_build,
  start_build, try_fetch, build_message, fit_message, payload_message,
}
use story.Queue.{is_empty, len, front_of, get}
use story.Staking.Withdrawals.{
  peek_eligible_withdrawals, peek_eligible, peek_loop, peek_eligible_reward_withdrawals,
}
use story.Engine.Retry.{retry_forever}
use story.Engine.Events.{evm_events}
use story.Engine.Build.Promise.{Fulfils, Builds}
use story.Engine.Build.Proposed.{Ready, owed as owed_of, prepare_proposal-accepted}
use story.Tests.Data.{
  World, done, env, state, head, message, payload, unstaked, rewarded, queue_of-Represents,
}

abbrev later_payload : ExecutableData
later_payload = record payload { timestamp = 2000 }

abbrev builder : Env World
builder = record env {
  engine_cl = record (env.engine_cl) {
    forkchoice_updated_v3 = λ _ attrs x. elim attrs [
      | none ↦ (err [], x)
      | some a ↦ (
        if a.timestamp == 2000
            then ok (record { payload_status = valid; payload_id = some 5 })
            else err [],
        x,
      )
    ];
    get_payload_v3 = λ _. done later_payload;
  };
  codecs = record (env.codecs) { marshal_payload = λ _. err [] };
}

abbrev due : List ElWithdrawal
due = owed_of builder head 4 0 0 (unstaked ∷ []) (rewarded ∷ [])

abbrev Promised : ℕ → ℕ → World → Type 0
Promised timestamp id x = timestamp ≡ 2000

fulfilled : (timestamp : ℕ) → timestamp ≡ 2000 → Fulfils builder head due timestamp later_payload
fulfilled timestamp e = record {
  number_eq = refl;
  parent_eq = refl;
  timestamp_eq = sym e;
  random_eq = refl;
  withdrawals_eq = refl;
  transactions = [];
  transactions_eq = refl;
  blob_gas = 0;
  blob_gas_eq = refl;
  excess = 0;
  excess_eq = refl;
  witness_eq = refl;
  base_fee = omega arith;
}

asked :
    (time : ℕ) (fcr : ForkChoiceResponse) (b : Bool)
    → (build_timestamp builder head time == 2000) ≡ b
    → ◌≡◌ {A = Outcome ForkChoiceResponse}
        (if b then ok (record { payload_status = valid; payload_id = some 5 }) else err [])
        (ok fcr)
    → build_timestamp builder head time ≡ 2000
asked time fcr true e r = ground arith
asked time fcr false e r = ground arith

builds : Builds builder head due Promised
builds = record {
  promises = λ time id x fcr r i. asked time fcr (build_timestamp builder head time == 2000) refl r;
  keeps = λ timestamp id x h. h;
  delivers = λ timestamp id x p h r.
      let same : later_payload ≡ p = cc in
      subst (Fulfils builder head due timestamp) same (fulfilled timestamp h);
}

ready : Ready builder head 4 0 0 (unstaked ∷ []) (rewarded ∷ []) state
unfolding max_withdrawal_per_block read_params
ready = record {
  head_eq = refl;
  max_eq = refl;
  queue = queue_of-Represents unstaked;
  rewards = queue_of-Represents rewarded;
}

abbrev proposed : MsgExecutionPayload
proposed = elim message.execution_payload_deneb [
  | none ↦ message
  | some m ↦ record message { execution_payload_deneb = some (record m { timestamp = 2000 }) }
]

run : prepare_proposal builder 1 0 100 100 2000 state ≡ some (ok (proposed ∷ []), state)
unfolding prepare_proposal propose peek_withdrawals max_withdrawal_per_block read_params
    peek_eligible_withdrawals peek_eligible is_empty len front_of peek_loop get
    peek_eligible_reward_withdrawals choose_payload retry_forever try_build start_build
    get_execution_head try_fetch build_message fit_message payload_message big_endian fill_bytes
    payload_to_proto with_gas evm_events is_terence get_upgrade_height
run = refl

prepare_proposal-accepted_example :
    (p : ExecutableData) × (parse_and_verify_proposed_payload builder proposed state ≡ ok p)
    × ((compare_withdrawals builder (slice p.withdrawals) state).0 ≡ ok tt)
prepare_proposal-accepted_example =
    prepare_proposal-accepted builder head 4 0 0 (unstaked ∷ []) (rewarded ∷ []) Promised builds
      (λ timestamp p json f e. absurd (ground arith)) (omega arith) (omega arith) 1 0 100 100 2000
      state state state proposed ready ready (omega arith) (λ e. absurd (omega (arith, e))) run
