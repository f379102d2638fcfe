-- ===== src/Cli/Transaction.antt =====
-- client/cmd/transaction.go: reads of the contract and transactions to it.
use story.Base.{ℕ, ◌*◌, ◌/◌, String, List, [], ◌∷◌}
use story.Action.{Action, Done, pure, outcome, fail_if, ◌>>=◌, ◌>>◌}
use story.Engine.Convert.{set_bytes}
use story.Cli.World.{
  ℤ, int64, times, ◌+ℤ◌, exceeds, BaseConfig, Arg, Tx, SignedTx, Receipt, Env, State, call,
}

module _ {X K : Type 0} (env : Env X K) where
  unfoldable pub read_contract : BaseConfig → ℕ → List ℕ → Action (State X) (List ℕ)
  read_contract cfg to payload = do
    call (env.node.dial cfg.rpc)
    call (env.node.call_contract to payload)

  unfoldable pub prepare_and_read_contract : BaseConfig → String → Action (State X) (List ℕ)
  prepare_and_read_contract cfg method =
      read_contract cfg cfg.contract_addr (env.codec.selector method)

  unfoldable pub get_uint256 : BaseConfig → String → Action (State X) ℕ
  get_uint256 cfg getter = do
    result ← prepare_and_read_contract cfg getter
    pure (set_bytes 0 result)

  unfoldable pub estimate_gas : ℕ → ℕ → ℕ → ℤ → List ℕ → Action (State X) ℕ
  estimate_gas sender to gas_price value payload = call (
      env.node.estimate_gas (record {
        sender = sender;
        to = to;
        gas_price = gas_price;
        value = value;
        payload = payload;
      }))

  -- The price that is suggested and a fifth of it
  abbrev pub raised : ℕ → ℕ
  raised gas_price = gas_price * 120 / 100

  abbrev pub total_tx_cost : ℕ → ℕ → ℤ → ℤ
  total_tx_cost gas_limit gas_fee_cap value = times (int64 gas_limit) gas_fee_cap +ℤ value

  -- The client gets the transaction, whether or not it then reports an error.
  unfoldable pub send : SignedTx → Action (State X) Done
  send signed s =
      let (r, x) = env.node.send_transaction signed s.ext in
      (r, record { ext = x; sent = signed ∷ s.sent })

  -- What is sent, and then waited for
  unfoldable pub submit : SignedTx → Action (State X) Receipt
  submit signed = do
    send signed
    receipt ← call (env.node.wait_mined signed)
    fail_if receipt.failed []
    pure receipt

  unfoldable pub send_transaction : BaseConfig → ℕ → ℤ → List ℕ → Action (State X) Receipt
  send_transaction cfg to value payload = do
    call (env.node.dial cfg.rpc)
    key ← outcome (env.codec.hex_to_ecdsa cfg.private_key)
    let sender : ℕ = env.codec.curve.pubkey_to_address (env.codec.curve.public_key key)
    nonce ← call (env.node.pending_nonce_at sender)
    suggested ← call env.node.suggest_gas_price
    let gas_price : ℕ = raised suggested
    gas_limit ← estimate_gas sender to gas_price value payload
    balance ← call (env.node.balance_at sender)
    fail_if (exceeds (total_tx_cost gas_limit (gas_price * 2) value) balance) []
    let tx : Tx = record {
      chain_id = cfg.chain_id;
      nonce = nonce;
      gas_fee_cap = gas_price * 2;
      gas_tip_cap = gas_price;
      gas = gas_limit;
      to = to;
      value = value;
      payload = payload;
    }
    signature ← outcome (env.codec.sign_tx tx key)
    submit (record { tx = tx; signature = signature })

  unfoldable pub prepare_and_execute_transaction :
      BaseConfig → String → ℤ → List Arg → Action (State X) Receipt
  prepare_and_execute_transaction cfg method value args = do
    payload ← outcome (env.codec.pack method args)
    send_transaction cfg cfg.contract_addr value payload
