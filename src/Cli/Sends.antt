-- ===== src/Cli/Sends.antt =====
-- A command sends at most one transaction, the one that it is for.
use story.Base.{ℕ, ◌*◌, ◌≡◌, ◌⊎◌, inl, inr, refl, sym, ap, subst, ◌∙◌, List, [], ◌∷◌, arith}
use story.Action.{Outcome, ok, err, panic, Action, Done, pure, outcome, fail_if, ◌>>=◌, ◌>>◌}
use story.Cli.World.{ℤ, BaseConfig, Tx, SignedTx, Receipt, Env, State, call}
use story.Cli.Transaction.{send, submit, estimate_gas, send_transaction}
use story.Cli.Reads.{Reads, reading_calls}

-- At most one transaction is sent, one of `P`; where the action succeeds, it is sent.
pub record Sends {X A : Type 0} (P : SignedTx → Type 0) (m : Action (State X) A) : Type 0 where
  pub at_most :
      (s : State X)
      → ((m s).1.sent ≡ s.sent) ⊎ ((tx : SignedTx) × ((m s).1.sent ≡ tx ∷ s.sent) × P tx)
  pub on_ok :
      (s : State X) (a : A) → (m s).0 ≡ ok a → (tx : SignedTx) × ((m s).1.sent ≡ tx ∷ s.sent) × P tx

abbrev pub One : {X : Type 0} → (SignedTx → Type 0) → State X → State X → Type 0
One P s t = (tx : SignedTx) × (t.sent ≡ tx ∷ s.sent) × P tx

module _ {X A : Type 0} (P : SignedTx → Type 0) where
  abbrev pub Ended : State X → Outcome A × State X → Type 0
  Ended s p = ((p.1.sent ≡ s.sent) ⊎ One P s p.1) × ((a : A) → p.0 ≡ ok a → One P s p.1)

  pub Sends-Ended : (m : Action (State X) A) → ((s : State X) → Ended s (m s)) → Sends P m
  Sends-Ended m h = record { at_most = λ s. (h s).0; on_ok = λ s. (h s).1 }

module _ {X A B : Type 0} (P : SignedTx → Type 0) (m : Action (State X) A)
    (f : A → Action (State X) B) where
  -- First reads, then a transaction
  pub Sends-bind : Reads m → ((a : A) → Sends P (f a)) → Sends P (m >>= f)
  Sends-bind k l = Sends-Ended P (m >>= f) (λ s. go s (m s).0 (m s).1 (k.reads s))
    where
      go :
          (s : State X) (r : Outcome A) (t : State X)
          → t.sent ≡ s.sent
          → Ended {A = B} P s (elim r [ ok a ↦ f a t | err e ↦ (err e, t) | panic ↦ (panic, t) ])
      go s (err x) t e = (inl e, λ b h. absurd (ground arith))
      go s panic t e = (inl e, λ b h. absurd (ground arith))
      go s (ok a) t e = (
        elim ((l a).at_most t) [
          | inl same ↦ inl (same ∙ e)
          | inr (tx, new, p) ↦ inr (tx, new ∙ ap (◌∷◌ tx) e, p)
        ],
        λ b h. let (tx, new, p) = (l a).on_ok t b h in (tx, new ∙ ap (◌∷◌ tx) e, p),
      )

  -- First a transaction, then reads
  pub Sends-before : Sends P m → ((a : A) → Reads (f a)) → Sends P (m >>= f)
  Sends-before k l = Sends-Ended P (m >>= f) (λ s. go s (m s).0 (m s).1 (k.at_most s) (k.on_ok s))
    where
      go :
          (s : State X) (r : Outcome A) (t : State X)
          → (t.sent ≡ s.sent) ⊎ One P s t
          → ((a : A) → r ≡ ok a → One P s t)
          → Ended {A = B} P s (elim r [ ok a ↦ f a t | err e ↦ (err e, t) | panic ↦ (panic, t) ])
      go s (err x) t e one = (e, λ b h. absurd (ground arith))
      go s panic t e one = (e, λ b h. absurd (ground arith))
      go s (ok a) t e one =
          let (tx, new, p) = one a refl in
          let after = (l a).reads t ∙ new in (inr (tx, after, p), λ b h. (tx, after, p))

module _ {X A B : Type 0} (P : SignedTx → Type 0) (r : Outcome A) (f : A → Action (State X) B) where
  -- A value that is computed, and its equation
  pub Sends-outcome : ((a : A) → r ≡ ok a → Sends P (f a)) → Sends P (outcome r >>= f)
  Sends-outcome l = Sends-Ended P (outcome r >>= f) (λ s. go s r l)
    where
      go :
          (s : State X) (r : Outcome A)
          → ((a : A) → r ≡ ok a → Sends P (f a))
          → Ended {A = B} P s (elim r [ ok a ↦ f a s | err e ↦ (err e, s) | panic ↦ (panic, s) ])
      go s (err x) l = (inl refl, λ b h. absurd (ground arith))
      go s panic l = (inl refl, λ b h. absurd (ground arith))
      go s (ok a) l = ((l a refl).at_most s, (l a refl).on_ok s)

pub Sends-then :
    {X B : Type 0} (P : SignedTx → Type 0) (m : Action (State X) Done) (n : Action (State X) B)
    → Reads m
    → Sends P n
    → Sends P (m >> n)
Sends-then P m n k l = Sends-bind P m (λ _. n) k (λ _. l)

pub Sends-weaken :
    {X A : Type 0} (P Q : SignedTx → Type 0) (m : Action (State X) A)
    → ((tx : SignedTx) → P tx → Q tx)
    → Sends P m
    → Sends Q m
Sends-weaken P Q m w k = record {
  at_most =
      λ s. elim (k.at_most s) [ inl same ↦ inl same | inr (tx, new, p) ↦ inr (tx, new, w tx p) ];
  on_ok = λ s a h. let (tx, new, p) = k.on_ok s a h in (tx, new, w tx p);
}

module _ {X K : Type 0} (env : Env X K) where
  -- What follows a transaction that is sent
  abbrev confirmed : SignedTx → Action (State X) Receipt
  confirmed signed = do
    receipt ← call (env.node.wait_mined signed)
    fail_if receipt.failed []
    pure receipt

  submit-Sends : (signed : SignedTx) → Sends (λ tx. tx ≡ signed) (submit env signed)
  unfolding submit send
  submit-Sends signed =
      Sends-before (λ tx. tx ≡ signed) (send env signed) (λ _. confirmed signed)
        (record { at_most = λ s. inr (signed, refl, refl); on_ok = λ s a h. (signed, refl, refl) })
        (λ _. search reading_calls)

  -- A transaction of a configuration to an address, with a value and a payload, signed by the
  -- configuration's key
  pub record Of (cfg : BaseConfig) (to : ℕ) (value : ℤ) (payload : List ℕ) (t : SignedTx)
      : Type 0 where
    pub to_eq : t.tx.to ≡ to
    pub value_eq : t.tx.value ≡ value
    pub payload_eq : t.tx.payload ≡ payload
    pub chain_eq : t.tx.chain_id ≡ cfg.chain_id
    pub fees_eq : t.tx.gas_fee_cap ≡ t.tx.gas_tip_cap * 2
    pub key : K
    pub key_eq : env.codec.hex_to_ecdsa cfg.private_key ≡ ok key
    pub signature_eq : env.codec.sign_tx t.tx key ≡ ok t.signature

  estimate_gas-Reads :
      (sender to gas_price : ℕ) (value : ℤ) (payload : List ℕ)
      → Reads (estimate_gas env sender to gas_price value payload)
  unfolding estimate_gas
  estimate_gas-Reads sender to gas_price value payload = search reading_calls

  submit-Of :
      (cfg : BaseConfig) (to : ℕ) (value : ℤ) (payload : List ℕ) (key : K)
      (nonce gas_price gas_limit : ℕ) (signature : List ℕ)
      → env.codec.hex_to_ecdsa cfg.private_key ≡ ok key
      → let tx : Tx = record {
        chain_id = cfg.chain_id;
        nonce = nonce;
        gas_fee_cap = gas_price * 2;
        gas_tip_cap = gas_price;
        gas = gas_limit;
        to = to;
        value = value;
        payload = payload;
      } in
        env.codec.sign_tx tx key ≡ ok signature
        → Sends (Of cfg to value payload) (submit env (record { tx = tx; signature = signature }))
  submit-Of cfg to value payload key nonce gas_price gas_limit signature k e =
      let tx : Tx = record {
        chain_id = cfg.chain_id;
        nonce = nonce;
        gas_fee_cap = gas_price * 2;
        gas_tip_cap = gas_price;
        gas = gas_limit;
        to = to;
        value = value;
        payload = payload;
      } in
      let signed : SignedTx = record { tx = tx; signature = signature } in
      let it : Of cfg to value payload signed = record {
        to_eq = refl;
        value_eq = refl;
        payload_eq = refl;
        chain_eq = refl;
        fees_eq = refl;
        key = key;
        key_eq = k;
        signature_eq = e;
      } in
      Sends-weaken (λ t. t ≡ signed) (Of cfg to value payload) (submit env signed)
        (λ t same. subst (Of cfg to value payload) (sym same) it) (submit-Sends signed)

  ruleset sending = (Sends-bind, Sends-then, Sends-outcome, reading_calls, estimate_gas-Reads)

  pub send_transaction-Sends :
      (cfg : BaseConfig) (to : ℕ) (value : ℤ) (payload : List ℕ)
      → Sends (Of cfg to value payload) (send_transaction env cfg to value payload)
  unfolding send_transaction
  send_transaction-Sends cfg to value payload = search (sending, submit-Of) depth 20
