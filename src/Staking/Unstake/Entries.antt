-- ===== src/Staking/Unstake/Entries.antt =====
-- client/x/evmstaking/keeper/withdraw.go: one matured unbonding, and the withdrawal that it is owed.
use story.Base.{ℕ, ◌≡◌, sym, subst, String, Option, none, some, List, [], ◌∷◌, arith}
use story.Action.{ok, Action, Done, outcome, gets, pure, ◌>>=◌, ◌>>◌}
use story.Action.Laws.{bind_ok_inv, outcome_inv, then_inv}
use story.Staking.Types.{Withdrawal, new_withdrawal, unstake}
use story.Staking.External.{Env, UnbondedEntry}
use story.Staking.State.{State, call}
use story.Staking.Withdrawals.{add_withdrawal_to_queue}
use story.Staking.Rewards.{address_of, val_bech32_to_evm}
use story.Staking.Unstake.{withdraw_entry}

module _ {X : Type 0} (env : Env X) where
  -- The withdrawals that unbonded entries are owed, with the addresses that the delegators have set:
  -- one for each entry, of its amount, in the same order.
  pub data Owed (addresses : String → Option String)
      : List UnbondedEntry → List Withdrawal → Type 0 where
    nothing : Owed addresses [] []
    entry :
        (e : UnbondedEntry) (es : List UnbondedEntry) (ws : List Withdrawal) (addr : String)
        (amount v : ℕ)
        → addresses e.delegator_address ≡ some addr
        → env.uint64 e.amount ≡ ok amount
        → env.val_from_bech32 e.validator_address ≡ ok v
        → Owed addresses es ws
        → Owed addresses
            (e ∷ es)
            (new_withdrawal env.block_height addr amount unstake (env.hex_encode v) ∷ ws)

address_of_inv : (o : Option String) (a : String) → address_of o ≡ ok a → o ≡ some a
address_of_inv none a h = ground arith
address_of_inv (some b) a h = ground arith

abbrev pub with_ext : {X : Type 0} → X → State X → State X
with_ext x s = record s { ext = x }

call_inv :
    {X A : Type 0} (m : Action X A) (s t : State X) (a : A)
    → call m s ≡ (ok a, t)
    → (x : X) × (t ≡ record s { ext = x })
call_inv m s t a h = ((m s.ext).1, λ i. (sym h i).1)

module _ {X : Type 0} (env : Env X) where
  val_bech32_to_evm_inv :
      (a w : String) (s t : State X)
      → val_bech32_to_evm env a s ≡ (ok w, t)
      → (v : ℕ) × (env.val_from_bech32 a ≡ ok v) × (w ≡ env.hex_encode v) × (t ≡ s)
  unfolding val_bech32_to_evm
  val_bech32_to_evm_inv a w s t h =
      let (v, is_val, h₁) =
        outcome_inv (λ v. pure (env.hex_encode v)) s t w (env.val_from_bech32 a) h in
      (v, is_val, ground arith, λ i. (sym h₁ i).1)

  abbrev pub add : String → String → ℕ → Action (State X) Done
  add val addr amount =
      add_withdrawal_to_queue (new_withdrawal env.block_height addr amount unstake val)

  -- The coins of an entry are sent and burned, and its withdrawal is queued.
  abbrev pay : ℕ → String → String → ℕ → Action (State X) Done
  pay del val addr amount = do
    call (env.send_account_to_module del amount)
    call (env.burn_coins amount)
    add val addr amount

  abbrev measure : UnbondedEntry → ℕ → String → String → Action (State X) Done
  measure e del val addr = outcome (env.uint64 e.amount) >>= pay del val addr

  abbrev locate : UnbondedEntry → ℕ → String → Action (State X) Done
  locate e del val = do
    evm_addr ← gets (λ s. s.delegator_withdraw_address e.delegator_address)
    addr ← outcome (address_of evm_addr)
    measure e del val addr

  pay_inv :
      (del : ℕ) (val addr : String) (amount : ℕ) (s t : State X)
      → pay del val addr amount s ≡ (ok tt, t)
      → (x : X) × (add val addr amount (with_ext x s) ≡ (ok tt, t))
  pay_inv del val addr amount s t h =
      let (u, sent, h₁) =
        then_inv (call (env.send_account_to_module del amount))
          (call (env.burn_coins amount) >> add val addr amount) s t tt h in
      let (w, burned, h₂) =
        then_inv (call (env.burn_coins amount)) (add val addr amount) u t tt h₁ in
      let (x, u_eq) = call_inv (env.send_account_to_module del amount) s u tt sent in
      let (y, w_eq) = call_inv (env.burn_coins amount) u w tt burned in
      (
        y,
        subst (λ v. add val addr amount (with_ext y v) ≡ (ok tt, t)) u_eq
            (subst (λ v. add val addr amount v ≡ (ok tt, t)) w_eq h₂),
      )

  -- An entry whose withdrawal is queued: what it is owed, after the calls of other modules.
  abbrev pub Queued : UnbondedEntry → State X → State X → Type 0
  Queued e s t =
      (addr : String) × (amount : ℕ) × (v : ℕ) × (x : X) × (s.delegator_withdraw_address
          e.delegator_address
        ≡ some addr)
      × (env.uint64 e.amount ≡ ok amount)
      × (env.val_from_bech32 e.validator_address ≡ ok v)
      × (add (env.hex_encode v) addr amount (with_ext x s) ≡ (ok tt, t))

  locate_inv :
      (e : UnbondedEntry) (del v : ℕ) (s t : State X)
      → env.val_from_bech32 e.validator_address ≡ ok v
      → locate e del (env.hex_encode v) s ≡ (ok tt, t)
      → Queued e s t
  locate_inv e del v s t is_val h =
      let (addr, is_addr, h₁) =
        outcome_inv (measure e del (env.hex_encode v)) s t tt
          (address_of (s.delegator_withdraw_address e.delegator_address)) h in
      let (amount, is_amount, h₂) =
        outcome_inv (pay del (env.hex_encode v) addr) s t tt (env.uint64 e.amount) h₁ in
      let (x, added) = pay_inv del (env.hex_encode v) addr amount s t h₂ in
      (
        addr,
        amount,
        v,
        x,
        address_of_inv (s.delegator_withdraw_address e.delegator_address) addr is_addr,
        is_amount,
        is_val,
        added,
      )

  pub withdraw_entry_inv :
      (e : UnbondedEntry) (s t : State X) → withdraw_entry env e s ≡ (ok tt, t) → Queued e s t
  unfolding withdraw_entry
  withdraw_entry_inv e s t h =
      let (del, is_del, h₁) =
        outcome_inv (λ del. val_bech32_to_evm env e.validator_address >>= locate e del) s t tt
          (env.acc_from_bech32 e.delegator_address) h in
      let (val, u, got, h₂) =
        bind_ok_inv (val_bech32_to_evm env e.validator_address) (locate e del) s t tt h₁ in
      let (v, is_val, val_eq, same) = val_bech32_to_evm_inv e.validator_address val s u got in
      locate_inv e del v s t is_val (
        subst (λ w. locate e del w s ≡ (ok tt, t)) val_eq
          (subst (λ w. locate e del val w ≡ (ok tt, t)) same h₂))
