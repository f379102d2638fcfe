-- ===== src/Evm/Verified.antt =====
-- client/x/evmengine/types/tx.go: logs that were verified.
use story.Base.{ℕ, ◌≡◌, refl, List, [], ◌∷◌, map, arith}
use story.Action.{ok}
use story.Evm.{EvmEvent, EthLog, verify, to_eth_log, slice}

-- A log that passes `Verify` is converted by `ToEthLog`, and the log that comes out has a first topic.
pub to_eth_log-verify :
    (bytes_to_hash : List ℕ → ℕ) (l : EvmEvent)
    → verify l ≡ ok tt
    → (log : EthLog) × (t : ℕ) × (ts : List ℕ) × (to_eth_log bytes_to_hash l ≡ ok log)
      × (log.topics ≡ t ∷ ts)
unfolding verify to_eth_log
to_eth_log-verify bytes_to_hash l h = go l.topics refl
  where
    log : EthLog
    log = record {
      address = slice l.address;
      topics = map bytes_to_hash l.topics;
      log_data = l.log_data;
      tx_hash = bytes_to_hash (slice l.tx_hash);
    }

    go :
        (ts : List (List ℕ))
        → l.topics ≡ ts
        → (log : EthLog) × (t : ℕ) × (ts : List ℕ) × (to_eth_log bytes_to_hash l ≡ ok log)
          × (log.topics ≡ t ∷ ts)
    go [] e = absurd (ground arith)
    go (t ∷ ts) e = (log, bytes_to_hash t, map bytes_to_hash ts, ground arith, ground arith)
