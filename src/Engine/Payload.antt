-- ===== src/Engine/Payload.antt =====
-- client/x/evmengine/keeper/keeper.go, `parseAndVerifyProposedPayload`: how a message's payload is
-- read, and how it must follow the execution head.
pub mod Sound
use text.Mathlib.Text.{◌==◌ as str_eq}
use story.Base.{
  ℕ, ◌+◌, ◌%◌, Bool, true, false, ◌||◌, not, String, Option, none, some, List, [], ltb, ◌==◌,
  if◌then◌else◌, u64_mod,
}
use story.Action.{Outcome, ok, err, panic, Done}
use story.Netconf.{is_terence}
use story.Engine.Types.{ExecutableData, ExecutionHead, MsgExecutionPayload}
use story.Engine.Convert.{slice, payload_from_proto}
use story.Engine.State.{Env, State, get_execution_head}

abbrev pub is_none : {A : Type 0} → Option A → Bool
is_none none = true
is_none (some a) = false

module _ {X : Type 0} (env : Env X) where
  unfoldable pub validate_exec_payload : MsgExecutionPayload → Outcome Done
  validate_exec_payload msg = env.codecs.decode_strictly (slice msg.execution_payload)

  -- From the Terence upgrade on a message carries the protobuf payload, before it the JSON payload.
  unfoldable pub parse_payload : Bool → MsgExecutionPayload → Outcome ExecutableData
  parse_payload true msg =
      if not (is_none msg.execution_payload)
      then err []
      else payload_from_proto msg.execution_payload_deneb
  parse_payload false msg =
      if not (is_none msg.execution_payload_deneb)
      then err []
      else elim (validate_exec_payload msg) [
        | ok _ ↦ env.codecs.unmarshal_payload (slice msg.execution_payload)
        | err e ↦ err e
        | panic ↦ panic
      ]

  abbrev pub min_timestamp : ExecutionHead → ℕ
  min_timestamp head = (head.block_time + 1) % u64_mod

  -- The execution block's minimum takes precedence over the consensus block's time.
  abbrev pub max_timestamp : ExecutionHead → ℕ
  max_timestamp head =
      if ltb env.staking.block_time (min_timestamp head)
      then min_timestamp head
      else env.staking.block_time

  unfoldable pub verify_payload : ExecutionHead → ExecutableData → Outcome ExecutableData
  verify_payload head p =
      if not (p.number == (head.block_height + 1) % u64_mod)
      then err []
      else if not (p.parent_hash == head.block_hash)
      then err []
      else if ltb p.timestamp (min_timestamp head) || ltb (max_timestamp head) p.timestamp
      then err []
      else if not (p.random == head.block_hash)
      then err []
      else if is_none p.withdrawals || is_none p.blob_gas_used || is_none p.excess_blob_gas
      then err []
      else if not (is_none p.execution_witness)
      then err []
      else ok p

  unfoldable pub parse_and_verify_proposed_payload :
      MsgExecutionPayload → State X → Outcome ExecutableData
  parse_and_verify_proposed_payload msg s =
      if not (str_eq msg.authority env.module_address)
      then err []
      else elim (is_terence env.staking.chain_id env.staking.block_height) [
        | err e ↦ err e
        | panic ↦ panic
        | ok terence ↦ elim (parse_payload terence msg) [
          | err e ↦ err e
          | panic ↦ panic
          | ok p ↦ elim (get_execution_head s) [
            | err e ↦ err e
            | panic ↦ panic
            | ok head ↦ verify_payload head p
          ]
        ]
      ]
