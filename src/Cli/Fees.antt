-- ===== src/Cli/Fees.antt =====
-- A command that reads the contract's fee pays a fee that the contract has answered.
use story.Base.{ℕ, ◌≡◌, refl, ap, ◌∙◌, inl, inr, List, ◌∷◌, arith}
use story.Action.{Outcome, ok, err, panic, Action, pure, outcome, ◌>>=◌}
use story.Action.Laws.{bind_ok_inv}
use story.Engine.Convert.{set_bytes}
use story.Cli.World.{BaseConfig, SignedTx, Env, State, call}
use story.Cli.Transaction.{read_contract, prepare_and_read_contract, get_uint256}
use story.Cli.Commands.{read_fee}
use story.Cli.Reads.{Reads, reading_calls, prepare_and_read_contract-Reads, get_uint256-Reads}
use story.Cli.Sends.{Sends, Sends-Ended, Ended}
use story.Cli.Intends.{FeeBytes, AbiFee, WordFee}

-- First a read whose values are all of `Q`, then a transaction
Sends-learned :
    {X A B : Type 0} (P : SignedTx → Type 0) (Q : A → Type 0) (m : Action (State X) A)
    (f : A → Action (State X) B)
    → Reads m
    → ((s t : State X) (a : A) → m s ≡ (ok a, t) → Q a)
    → ((a : A) → Q a → Sends P (f a))
    → Sends P (m >>= f)
Sends-learned {X} {A} {B} P Q m f k q l =
    Sends-Ended P (m >>= f) (λ s. go s (m s).0 (m s).1 refl (k.reads s))
  where
    go :
        (s : State X) (r : Outcome A) (t : State X)
        → m s ≡ (r, t)
        → t.sent ≡ s.sent
        → Ended {A = B} P s (elim r [ ok a ↦ f a t | err e ↦ (err e, t) | panic ↦ (panic, t) ])
    go s (err x) t e same = (inl same, λ b h. absurd (ground arith))
    go s panic t e same = (inl same, λ b h. absurd (ground arith))
    go s (ok a) t e same =
        let next = l a (q s t a e) in
        (
          elim (next.at_most t) [
            | inl kept ↦ inl (kept ∙ same)
            | inr (tx, new, p) ↦ inr (tx, new ∙ ap (◌∷◌ tx) same, p)
          ],
          λ b h. let (tx, new, p) = next.on_ok t b h in (tx, new ∙ ap (◌∷◌ tx) same, p),
        )

module _ {X K : Type 0} (env : Env X K) (cfg : BaseConfig) where
  answered :
      (s t : State X) (result : List ℕ)
      → prepare_and_read_contract env cfg "fee" s ≡ (ok result, t)
      → FeeBytes env cfg result
  unfolding prepare_and_read_contract read_contract
  answered s t result h =
      let (_, u, _, asked) =
        bind_ok_inv (call (env.node.dial cfg.rpc))
          (λ _. call (env.node.call_contract cfg.contract_addr (env.codec.selector "fee"))) s t
          result h in
      record { node_state = u.ext; answered = ap (λ q. q.0) asked }

  read_fee-AbiFee :
      (s t : State X) (fee : ℕ) → read_fee env cfg s ≡ (ok fee, t) → AbiFee env cfg fee
  unfolding read_fee
  read_fee-AbiFee s t fee h =
      let (result, u, got, decoded) =
        bind_ok_inv (prepare_and_read_contract env cfg "fee")
          (λ result. outcome (env.codec.unpack_fee result)) s t fee h in
      record {
        result = result;
        fee_bytes = answered s u result got;
        fee_eq = ap (λ q. q.0) decoded;
      }

  get_uint256-WordFee :
      (s t : State X) (fee : ℕ) → get_uint256 env cfg "fee" s ≡ (ok fee, t) → WordFee env cfg fee
  unfolding get_uint256
  get_uint256-WordFee s t fee h =
      let (result, u, got, decoded) =
        bind_ok_inv (prepare_and_read_contract env cfg "fee") (λ result. pure (set_bytes 0 result))
          s t fee h in
      record { result = result; fee_bytes = answered s u result got; fee_eq = ground arith }

  read_fee-Reads : Reads (read_fee env cfg)
  unfolding read_fee
  read_fee-Reads = search (reading_calls, prepare_and_read_contract-Reads)

  module _ {A : Type 0} (P : SignedTx → Type 0) (f : ℕ → Action (State X) A) where
    pub Sends-read_fee :
        ((fee : ℕ) → AbiFee env cfg fee → Sends P (f fee)) → Sends P (read_fee env cfg >>= f)
    Sends-read_fee l =
        Sends-learned P (AbiFee env cfg) (read_fee env cfg) f read_fee-Reads read_fee-AbiFee l

    pub Sends-get_uint256 :
        ((fee : ℕ) → WordFee env cfg fee → Sends P (f fee))
        → Sends P (get_uint256 env cfg "fee" >>= f)
    Sends-get_uint256 l =
        Sends-learned P (WordFee env cfg) (get_uint256 env cfg "fee") f
          (get_uint256-Reads env cfg "fee") get_uint256-WordFee l
