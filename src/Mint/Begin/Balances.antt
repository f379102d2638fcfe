-- ===== src/Mint/Begin/Balances.antt =====
-- What a block mints, by the balances of the bank.
use story.Base.{
  ℕ, ◌+◌, ◌≡◌, ◌∙◌, ◌⊎◌, inl, inr, refl, sym, ap, subst, true, false, Bool-cases, String, some, ◌∷◌,
  ◌==◌, ==_iff, if◌then◌else◌, arith,
}
use story.Action.{Outcome, ok, err, panic, Action, Done, modify, outcome, ◌>>=◌, ◌>>◌}
use story.Action.Laws.{bind_ok_inv}
use story.Mint.Params.{Decimals, Params}
use story.Mint.Begin.{
  Keepers, State, get_params, mint_coins, add_collected_fees, minted_coin, mint_block,
  before_singularity, begin_blocker,
}

-- The two accounts of the bank that a block touches, and what the bank says of a call that succeeds.
pub record Ledger {X : Type 0} (k : Keepers X) : Type 0 where
  pub module_balance : X → String → ℕ
  pub fee_balance : X → String → ℕ
  pub mint_adds :
      (d : String) (n : ℕ) (x y : X)
      → k.bank_mint_coins d n x ≡ (ok tt, y)
      → (module_balance y d ≡ module_balance x d + n) × (fee_balance y d ≡ fee_balance x d)
  pub send_moves :
      (d : String) (n : ℕ) (x y : X)
      → k.send_to_fee_collector d n x ≡ (ok tt, y)
      → (module_balance y d + n ≡ module_balance x d) × (fee_balance y d ≡ fee_balance x d + n)

module _ (D : Decimals) {X : Type 0} (k : Keepers X) (bank : Ledger k) where
  open bank use {module_balance, fee_balance, mint_adds, send_moves}

  -- The amount of the stored parameters goes to the fee collector, and the module keeps nothing.
  pub record Minted (s t : State D X) : Type 0 where
    pub params : Params D
    pub amount : ℕ
    pub stored : s.params ≡ some params
    pub computed : minted_coin D params ≡ ok amount
    pub module_keeps :
        module_balance t.ext params.mint_denom ≡ module_balance s.ext params.mint_denom
    pub fees_grow :
        fee_balance t.ext params.mint_denom ≡ fee_balance s.ext params.mint_denom + amount
    pub events_eq : t.events ≡ record { amount = amount } ∷ s.events
    pub params_eq : t.params ≡ s.params

  get_params_inv :
      (s t : State D X) (p : Params D) → get_params D s ≡ (ok p, t) → (s.params ≡ some p) × (t ≡ s)
  unfolding get_params
  get_params_inv s t p h = ground arith

  -- A call outside the module leaves its stores alone.
  abbrev Kept : State D X → State D X → Type 0
  Kept s t = (t.params ≡ s.params) × (t.events ≡ s.events)

  mint_coins_inv :
      (denom : String) (amount : ℕ) (s t : State D X)
      → mint_coins D k denom amount s ≡ (ok tt, t)
      → (module_balance t.ext denom ≡ module_balance s.ext denom + amount)
        × (fee_balance t.ext denom ≡ fee_balance s.ext denom)
        × (t.params ≡ s.params)
        × (t.events ≡ s.events)
  unfolding mint_coins
  mint_coins_inv denom amount s t h = elim (Bool-cases (amount == 0)) [
    | inl z ↦
        let zero : amount ≡ 0 = (==_iff amount 0).0 z in
        let same : s ≡ t = ap (λ p. p.1) (rw z at h) in
        (
          ap (λ u. module_balance u.ext denom) (sym same) ∙ omega arith,
          ap (λ u. fee_balance u.ext denom) (sym same),
          ap (λ u. u.params) (sym same),
          ap (λ u. u.events) (sym same),
        )
    | inr z ↦
        let h' = rw z at h in
        let (more, same) = mint_adds denom amount s.ext t.ext (λ i. ((h' i).0, (h' i).1.ext)) in
        (more, same, λ i. (sym h' i).1.params, λ i. (sym h' i).1.events)
  ]

  add_collected_fees_inv :
      (denom : String) (amount : ℕ) (s t : State D X)
      → add_collected_fees D k denom amount s ≡ (ok tt, t)
      → (module_balance t.ext denom + amount ≡ module_balance s.ext denom)
        × (fee_balance t.ext denom ≡ fee_balance s.ext denom + amount)
        × (t.params ≡ s.params)
        × (t.events ≡ s.events)
  unfolding add_collected_fees
  add_collected_fees_inv denom amount s t h =
      let (less, more) = send_moves denom amount s.ext t.ext (λ i. ((h i).0, (h i).1.ext)) in
      (less, more, λ i. (sym h i).1.params, λ i. (sym h i).1.events)

  abbrev log_minted : ℕ → Action (State D X) Done
  log_minted n = modify (λ s. record s { events = record { amount = n } ∷ s.events })

  -- The parts of a block that succeeds, put together.
  assemble :
      (p : Params D) (n : ℕ) (s s₁ s₂ t : State D X)
      → s.params ≡ some p
      → minted_coin D p ≡ ok n
      → mint_coins D k p.mint_denom n s ≡ (ok tt, s₁)
      → add_collected_fees D k p.mint_denom n s₁ ≡ (ok tt, s₂)
      → log_minted n s₂ ≡ (ok tt, t)
      → Minted s t
  assemble p n s s₁ s₂ t stored computed minted sent logged =
      let (grown, fees, params_kept, events_kept) = mint_coins_inv p.mint_denom n s s₁ minted in
      let (shrunk, collected, params_same, events_same) =
        add_collected_fees_inv p.mint_denom n s₁ s₂ sent in
      let ext_eq : t.ext ≡ s₂.ext = ap (λ q. q.1.ext) (sym logged) in
      record {
        params = p;
        amount = n;
        stored = stored;
        computed = computed;
        module_keeps = ap (λ x. module_balance x p.mint_denom) ext_eq ∙ omega arith;
        fees_grow = ap (λ x. fee_balance x p.mint_denom) ext_eq ∙ omega arith;
        events_eq =
            ap (λ q. q.1.events) (sym logged)
            ∙ ap (λ es. record { amount = n } ∷ es) (events_same ∙ events_kept);
        params_eq = ap (λ q. q.1.params) (sym logged) ∙ params_same ∙ params_kept;
      }

  mint_block-Minted : (s t : State D X) → mint_block D k s ≡ (ok tt, t) → Minted s t
  unfolding mint_block
  mint_block-Minted s t h =
      let send : String → ℕ → Action (State D X) Done =
        λ d n. add_collected_fees D k d n >> log_minted n in
      let mint : String → ℕ → Action (State D X) Done = λ d n. mint_coins D k d n >> send d n in
      let (p, s₁, got, h₁) =
        bind_ok_inv (get_params D) (λ p. outcome (minted_coin D p) >>= mint p.mint_denom) s t tt
          h in
      let (n, s₂, computed, h₂) =
        bind_ok_inv (outcome (minted_coin D p)) (mint p.mint_denom) s₁ t tt h₁ in
      let (_, s₃, minted, h₃) =
        bind_ok_inv (mint_coins D k p.mint_denom n) (λ _. send p.mint_denom n) s₂ t tt h₂ in
      let (_, s₄, sent, h₄) =
        bind_ok_inv (add_collected_fees D k p.mint_denom n) (λ _. log_minted n) s₃ t tt h₃ in
      let (stored, same) = get_params_inv s s₁ p got in
      let back : s₂ ≡ s = (λ i. (sym computed i).1) ∙ same in
      assemble p n s s₃ s₄ t stored (λ i. (computed i).0)
        (subst (λ u. mint_coins D k p.mint_denom n u ≡ (ok tt, s₃)) back minted) sent h₄

  -- A block that begins without an error either stands before the singularity and changes nothing, or
  -- mints the amount of the stored parameters, which ends with the fee collector and not with the
  -- module, and records it in one event.
  pub begin_blocker-Minted :
      (block_height : ℕ) (s t : State D X)
      → begin_blocker D k block_height s ≡ (ok tt, t)
      → (height : ℕ) × (k.singularity_height s.ext ≡ ok height)
        × (((before_singularity block_height height ≡ true) × (t ≡ s))
            ⊎ ((before_singularity block_height height ≡ false) × Minted s t))
  unfolding begin_blocker
  begin_blocker-Minted block_height s t h = go (k.singularity_height s.ext) refl h
    where
      go :
          (r : Outcome ℕ)
          → k.singularity_height s.ext ≡ r
          → ◌≡◌ {A = Outcome Done × State D X}
              (elim r [
                | err e ↦ (err e, s)
                | panic ↦ (panic, s)
                | ok height ↦
                    if before_singularity block_height height then (ok tt, s) else mint_block D k s
              ])
              (ok tt, t)
          → (height : ℕ) × (k.singularity_height s.ext ≡ ok height)
            × (((before_singularity block_height height ≡ true) × (t ≡ s))
                ⊎ ((before_singularity block_height height ≡ false) × Minted s t))
      go (ok height) e h = elim (Bool-cases (before_singularity block_height height)) [
        | inl b ↦ (height, e, inl (b, λ i. (sym (rw b at h) i).1))
        | inr b ↦ (height, e, inr (b, mint_block-Minted s t (rw b at h)))
      ]
      go (err x) e h = ground arith
      go panic e h = ground arith
