-- ===== src/Evm.antt =====
-- client/x/evmengine/types/tx.go: the logs of the execution layer as a block carries them.
pub mod Verified
use story.Base.{
  ℕ, Bool, true, false, ◌&&◌, ◌||◌, not, Option, none, some, List, [], ◌∷◌, map, length, ◌==◌,
  if◌then◌else◌,
}
use story.Action.{Outcome, ok, err}

-- A log; `none` is Go's nil slice. Topics and data are lists of bytes.
pub record EvmEvent : Type 0 where
  pub address : Option (List ℕ)
  pub topics : List (List ℕ)
  pub log_data : List ℕ
  pub tx_hash : Option (List ℕ)

pub record EthLog : Type 0 where
  pub address : List ℕ
  pub topics : List ℕ
  pub log_data : List ℕ
  pub tx_hash : ℕ

abbrev address_length : ℕ
address_length = 20

abbrev hash_length : ℕ
hash_length = 32

unfoldable pub topics_fit : List (List ℕ) → Bool
topics_fit [] = true
topics_fit (t ∷ ts) = length t == hash_length && topics_fit ts

abbrev pub is_nil : {A : Type 0} → List A → Bool
is_nil [] = true
is_nil (x ∷ xs) = false

abbrev fit_tx_hash : Option (List ℕ) → Outcome (Unit {0})
fit_tx_hash none = err []
fit_tx_hash (some h) = if length h == hash_length then ok tt else err []

-- `Verify`. Which check fails is a matter of the message only.
unfoldable pub verify : EvmEvent → Outcome (Unit {0})
verify l = elim l.address [
  | none ↦ err []
  | some a ↦
      if is_nil l.topics || not (length a == address_length) || not (topics_fit l.topics)
      then err []
      else fit_tx_hash l.tx_hash
]

-- The bytes of a slice that may be nil
abbrev slice : Option (List ℕ) → List ℕ
slice none = []
slice (some b) = b

-- `ToEthLog`, over `common.BytesToHash`
unfoldable pub to_eth_log : (List ℕ → ℕ) → EvmEvent → Outcome EthLog
to_eth_log bytes_to_hash l =
    if is_nil l.topics || not (length (slice l.address) == address_length)
    then err []
    else ok (record {
      address = slice l.address;
      topics = map bytes_to_hash l.topics;
      log_data = l.log_data;
      tx_hash = bytes_to_hash (slice l.tx_hash);
    })
