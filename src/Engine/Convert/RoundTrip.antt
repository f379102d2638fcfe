-- ===== src/Engine/Convert/RoundTrip.antt =====
-- A payload comes back from its message.
use native.Mathlib.Nat.{div-lt_iff_lt-mul}
use story.Base.{
  ℕ, zero, suc, ◌+◌, ◌*◌, ◌/◌, ◌%◌, ◌^◌, ◌<◌, ◌≡◌, refl, sym, subst, ◌∙◌, none, some, List, [], ◌∷◌,
  ◌++◌, map, ltb, length, length-append, ◌==◌, true, arith,
}
use story.Action.{ok}
use story.Staking.Types.{ElWithdrawal}
use story.Engine.Types.{ExecutableData, ExecutionPayloadDeneb}
use story.Engine.Convert.{
  big_endian, fill_bytes, with_gas, deneb, set_bytes, withdrawals_to_proto, withdrawal_from_proto,
  payload_to_proto, payload_from_proto,
}

length-big_endian : (k n : ℕ) → length (big_endian k n) ≡ k
unfolding big_endian
length-big_endian zero n = refl
length-big_endian (suc k) n =
    omega (
      arith,
      length-append (big_endian k (n / 256)) ((n % 256) ∷ []),
      length-big_endian k (n / 256),
    )

set_bytes-append :
    (acc b : ℕ) (bs : List ℕ) → set_bytes acc (bs ++ b ∷ []) ≡ set_bytes acc bs * 256 + b
set_bytes-append acc b [] = refl
set_bytes-append acc b (c ∷ bs) = set_bytes-append (acc * 256 + c) b bs

set_bytes-big_endian : (k n : ℕ) → n < 256 ^ k → set_bytes 0 (big_endian k n) ≡ n
unfolding big_endian
set_bytes-big_endian zero n h = omega arith
set_bytes-big_endian (suc k) n h =
    set_bytes-append 0 (n % 256) (big_endian k (n / 256))
    ∙ omega (
      arith,
      set_bytes-big_endian k (n / 256) ((div-lt_iff_lt-mul (omega arith)).1 (omega arith)),
    )

fill_bytes_ok : (k n : ℕ) → n < 256 ^ k → fill_bytes k n ≡ ok (big_endian k n)
unfolding fill_bytes
fill_bytes_ok k n h = let fits : ltb n (256 ^ k) ≡ true = ground arith in rw fits refl

withdrawals_to_proto-some :
    (ws : List ElWithdrawal) → withdrawals_to_proto (map withdrawal_from_proto ws) ≡ ok ws
withdrawals_to_proto-some [] = refl
withdrawals_to_proto-some (w ∷ ws) = rw (withdrawals_to_proto-some ws) refl

-- A payload as geth builds it
built : ExecutableData → List ElWithdrawal → List (List ℕ) → ℕ → ℕ → ExecutableData
built p ws txs blob_gas excess = record p {
  transactions = some txs;
  withdrawals = some (map withdrawal_from_proto ws);
  blob_gas_used = some blob_gas;
  excess_blob_gas = some excess;
  execution_witness = none;
}

Returns : ExecutableData → Type 0
Returns p =
    (m : ExecutionPayloadDeneb) × (payload_to_proto p ≡ ok m) × (payload_from_proto (some m) ≡ ok p)

built-Returns :
    (p : ExecutableData) (ws : List ElWithdrawal) (txs : List (List ℕ)) (blob_gas excess : ℕ)
    → p.base_fee_per_gas < 256 ^ 32
    → Returns (built p ws txs blob_gas excess)
unfolding Returns built with_gas payload_to_proto payload_from_proto
built-Returns p ws txs blob_gas excess h =
    let long : (length (big_endian 32 p.base_fee_per_gas) == 32) ≡ true =
      ground (arith, length-big_endian 32 p.base_fee_per_gas) in
    (
      deneb (built p ws txs blob_gas excess) (big_endian 32 p.base_fee_per_gas) ws blob_gas excess,
      rw
          (
            fill_bytes_ok 32 p.base_fee_per_gas h,
            withdrawals_to_proto-some ws,
            payload_to_proto,
            with_gas,
          )
          refl,
      rw (long, set_bytes-big_endian 32 p.base_fee_per_gas h, payload_from_proto) refl,
    )

-- A payload that geth has built, with its withdrawals, transactions and blob gas, without a witness
-- and with a base fee of 256 bits, is turned into a message from which the same payload is read.
pub payload_from_proto-payload_to_proto :
    (p : ExecutableData) (ws : List ElWithdrawal) (txs : List (List ℕ)) (blob_gas excess : ℕ)
    → p.withdrawals ≡ some (map withdrawal_from_proto ws)
    → p.transactions ≡ some txs
    → p.blob_gas_used ≡ some blob_gas
    → p.excess_blob_gas ≡ some excess
    → p.execution_witness ≡ none
    → p.base_fee_per_gas < 256 ^ 32
    → (m : ExecutionPayloadDeneb) × (payload_to_proto p ≡ ok m)
      × (payload_from_proto (some m) ≡ ok p)
unfolding Returns built
payload_from_proto-payload_to_proto p ws txs blob_gas excess w t b x e h =
    let same : built p ws txs blob_gas excess ≡ p = λ i. record p {
      transactions = sym t i;
      withdrawals = sym w i;
      blob_gas_used = sym b i;
      excess_blob_gas = sym x i;
      execution_witness = sym e i;
    } in
    subst Returns same (built-Returns p ws txs blob_gas excess h)
