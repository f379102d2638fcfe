-- ===== src/Engine/Convert.antt =====
-- client/x/evmengine/types/convert.go: payloads to and from their protobuf messages.
pub mod RoundTrip
use story.Base.{
  ℕ, zero, suc, ◌+◌, ◌*◌, ◌/◌, ◌%◌, ◌^◌, Option, none, some, List, [], ◌∷◌, ◌++◌, map, ltb, length,
  ◌==◌, if◌then◌else◌,
}
use story.Action.{Outcome, ok, err, panic}
use story.Staking.Types.{ElWithdrawal}
use story.Engine.Types.{ExecutableData, ExecutionPayloadDeneb}

-- The `k` lowest bytes of a number, the highest first.
unfoldable pub big_endian : ℕ → ℕ → List ℕ
big_endian zero n = []
big_endian (suc k) n = big_endian k (n / 256) ++ (n % 256) ∷ []

-- `big.Int.FillBytes` panics where the number does not fit.
unfoldable pub fill_bytes : ℕ → ℕ → Outcome (List ℕ)
fill_bytes k n = if ltb n (256 ^ k) then ok (big_endian k n) else panic

-- `big.Int.SetBytes`, from the value of the bytes read so far
abbrev pub set_bytes : ℕ → List ℕ → ℕ
set_bytes acc [] = acc
set_bytes acc (b ∷ bs) = set_bytes (acc * 256 + b) bs

-- `WithdrawalToProto`: the message has the withdrawal's fields.
abbrev withdrawal_to_proto : Option ElWithdrawal → Outcome ElWithdrawal
withdrawal_to_proto none = err []
withdrawal_to_proto (some w) = ok w

-- `WithdrawalFromProto` gives a pointer that is not nil.
abbrev pub withdrawal_from_proto : ElWithdrawal → Option ElWithdrawal
withdrawal_from_proto w = some w

abbrev cons_ok : {A : Type 0} → A → Outcome (List A) → Outcome (List A)
cons_ok a (ok xs) = ok (a ∷ xs)
cons_ok a (err e) = err e
cons_ok a panic = panic

abbrev pub withdrawals_to_proto : List (Option ElWithdrawal) → Outcome (List ElWithdrawal)
withdrawals_to_proto [] = ok []
withdrawals_to_proto (w ∷ ws) =
    let rest = withdrawals_to_proto ws in
    elim (withdrawal_to_proto w) [ ok v ↦ cons_ok v rest | err e ↦ err e | panic ↦ panic ]

abbrev pub slice : {A : Type 0} → Option (List A) → List A
slice none = []
slice (some xs) = xs

abbrev pub deneb : ExecutableData → List ℕ → List ElWithdrawal → ℕ → ℕ → ExecutionPayloadDeneb
deneb p base_fee ws blob_gas excess = record {
  parent_hash = p.parent_hash;
  fee_recipient = p.fee_recipient;
  state_root = p.state_root;
  receipts_root = p.receipts_root;
  logs_bloom = p.logs_bloom;
  prev_randao = p.random;
  block_number = p.number;
  gas_limit = p.gas_limit;
  gas_used = p.gas_used;
  timestamp = p.timestamp;
  extra_data = p.extra_data;
  base_fee_per_gas = base_fee;
  block_hash = p.block_hash;
  transactions = p.transactions;
  withdrawals = ws;
  blob_gas_used = blob_gas;
  excess_blob_gas = excess;
}

unfoldable pub with_gas : ExecutableData → ℕ → ℕ → Outcome ExecutionPayloadDeneb
with_gas p blob_gas excess = elim (fill_bytes 32 p.base_fee_per_gas) [
  | ok base_fee ↦ elim (withdrawals_to_proto (slice p.withdrawals)) [
    | ok ws ↦ ok (deneb p base_fee ws blob_gas excess)
    | err e ↦ err e
    | panic ↦ panic
  ]
  | err e ↦ err e
  | panic ↦ panic
]

unfoldable pub payload_to_proto : ExecutableData → Outcome ExecutionPayloadDeneb
unfolding with_gas
payload_to_proto p = elim p.blob_gas_used [
  | none ↦ err []
  | some blob_gas ↦ elim p.excess_blob_gas [
    | none ↦ err []
    | some excess ↦ elim p.execution_witness [ some _ ↦ err [] | none ↦ with_gas p blob_gas excess ]
  ]
]

unfoldable pub payload_from_proto : Option ExecutionPayloadDeneb → Outcome ExecutableData
payload_from_proto none = err []
payload_from_proto (some p) =
    if length p.base_fee_per_gas == 32
    then ok (record {
      parent_hash = p.parent_hash;
      fee_recipient = p.fee_recipient;
      state_root = p.state_root;
      receipts_root = p.receipts_root;
      logs_bloom = p.logs_bloom;
      random = p.prev_randao;
      number = p.block_number;
      gas_limit = p.gas_limit;
      gas_used = p.gas_used;
      timestamp = p.timestamp;
      extra_data = p.extra_data;
      base_fee_per_gas = set_bytes 0 p.base_fee_per_gas;
      block_hash = p.block_hash;
      transactions = some (slice p.transactions);
      withdrawals = some (map withdrawal_from_proto p.withdrawals);
      blob_gas_used = some p.blob_gas_used;
      excess_blob_gas = some p.excess_blob_gas;
      execution_witness = none;
    })
    else err []
