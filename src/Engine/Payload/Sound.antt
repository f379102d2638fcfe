-- ===== src/Engine/Payload/Sound.antt =====
-- Which payloads pass, and what a proposer can always propose.
use text.Mathlib.Text.{◌==◌ as str_eq}
use story.Base.{
  ◌+◌, ◌%◌, ◌≤◌, ◌≡◌, ◌↔◌, refl, ap, subst, Bool, true, false, not, some, [], if◌then◌else◌,
  u64_mod, arith,
}
use story.Action.{Outcome, ok, err, panic}
use story.Netconf.{is_terence}
use story.Engine.Types.{ExecutableData, ExecutionHead, MsgExecutionPayload}
use story.Engine.State.{Env, State, get_execution_head}
use story.Engine.Payload.{
  is_none, parse_payload, min_timestamp, max_timestamp, verify_payload,
  parse_and_verify_proposed_payload,
}

-- A payload that follows an execution head: the next number, on the head's hash, which is its random
-- too, at a time in the window, with withdrawals and blob gas, and without a witness.
pub record Follows {X : Type 0} (env : Env X) (head : ExecutionHead) (p : ExecutableData)
    : Type 0 where
  pub number_eq : p.number ≡ (head.block_height + 1) % u64_mod
  pub parent_eq : p.parent_hash ≡ head.block_hash
  pub not_early : min_timestamp env head ≤ p.timestamp
  pub not_late : p.timestamp ≤ max_timestamp env head
  pub random_eq : p.random ≡ head.block_hash
  pub has_withdrawals : is_none p.withdrawals ≡ false
  pub has_blob_gas : is_none p.blob_gas_used ≡ false
  pub has_excess : is_none p.excess_blob_gas ≡ false
  pub no_witness : is_none p.execution_witness ≡ true

module _ {X : Type 0} (env : Env X) (head : ExecutionHead) (p : ExecutableData) where
  verify_sound : verify_payload env head p ≡ ok p → Follows env head p
  unfolding verify_payload
  verify_sound h = record {
    number_eq = ground arith;
    parent_eq = ground arith;
    not_early = ground arith;
    not_late = ground arith;
    random_eq = ground arith;
    has_withdrawals = ground arith;
    has_blob_gas = ground arith;
    has_excess = ground arith;
    no_witness = ground arith;
  }

  verify_complete : Follows env head p → verify_payload env head p ≡ ok p
  unfolding verify_payload
  verify_complete f =
      let n = f.number_eq in
      let q = f.parent_eq in
      let e = f.not_early in
      let l = f.not_late in
      let r = f.random_eq in
      let w = f.has_withdrawals in
      let b = f.has_blob_gas in let x = f.has_excess in let i = f.no_witness in ground arith

  verify_same : (q : ExecutableData) → verify_payload env head q ≡ ok p → q ≡ p
  unfolding verify_payload
  verify_same q h = ground arith

-- A message is accepted at a height whose upgrade status is known, and on an execution head, exactly
-- when its authority is the module's account, its payload reads in the format of the height, and the
-- payload follows the head; the payload returned is the one that was read.
pub parse_and_verify_proposed_payload_iff :
    {X : Type 0} (env : Env X) (s : State X) (msg : MsgExecutionPayload) (head : ExecutionHead)
    (terence : Bool) (p : ExecutableData)
    → s.head ≡ some head
    → is_terence env.staking.chain_id env.staking.block_height ≡ ok terence
    → (parse_and_verify_proposed_payload env msg s ≡ ok p) ↔ (
        (str_eq msg.authority env.module_address ≡ true)
        × (parse_payload env terence msg ≡ ok p)
        × Follows env head p)
unfolding parse_and_verify_proposed_payload get_execution_head
parse_and_verify_proposed_payload_iff env s msg head terence p h t = (
  λ e.
      to (str_eq msg.authority env.module_address) (parse_payload env terence msg)
        (get_execution_head s) (rw h refl) (subst (λ r. After r ≡ ok p) t e),
  λ (a, b, f). rw (a, t, b, h) (verify_complete env head p f),
)
  where
    After : Outcome Bool → Outcome ExecutableData
    After r = if not (str_eq msg.authority env.module_address) then err [] else elim r [
      | err e ↦ err e
      | panic ↦ panic
      | ok terence ↦ elim (parse_payload env terence msg) [
        | err e ↦ err e
        | panic ↦ panic
        | ok p ↦ elim (get_execution_head s) [
          | err e ↦ err e
          | panic ↦ panic
          | ok head ↦ verify_payload env head p
        ]
      ]
    ]

    read : ExecutableData → Outcome ExecutionHead → Outcome ExecutableData
    read q rh = elim rh [ err e ↦ err e | panic ↦ panic | ok hd ↦ verify_payload env hd q ]

    to :
        (b : Bool) (r : Outcome ExecutableData) (rh : Outcome ExecutionHead)
        → rh ≡ ok head
        → (if not b then err [] else elim r [ err e ↦ err e | panic ↦ panic | ok q ↦ read q rh ])
          ≡ ok p
        → (b ≡ true) × (r ≡ ok p) × Follows env head p
    to true (ok q) rh k e =
        let v : verify_payload env head q ≡ ok p = subst (λ x. read q x ≡ ok p) k e in
        let same = verify_same env head p q v in
        (
          refl,
          ap ok same,
          verify_sound env head p (subst (λ x. verify_payload env head x ≡ ok p) same v),
        )
    to true (err x) rh k e = ground arith
    to true panic rh k e = ground arith
    to false r rh k e = ground arith
