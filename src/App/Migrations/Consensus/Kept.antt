-- ===== src/App/Migrations/Consensus/Kept.antt =====
-- client/app/upgrades/v_1_2_0: what the handler leaves in the consensus parameters.
use story.Base.{◌≡◌, sym, ap, ◌∙◌, ℕ, Bool-cases, inl, inr, true, none, some, Option, arith}
use story.Action.{ok, Action, Done, pure, ask, outcome, ◌>>=◌, ◌>>◌}
use story.Action.Laws.{ask_inv, outcome_inv, then_inv}
use story.App.Migrations.Consensus.{
  ConsensusTypes, BlockParams, ConsensusParams, ConsensusKeeper, deref, new_max_bytes, new_block,
  compare_block, compare_version, compare_opaque, update_msg, compare_params, upgrade_v_1_2_0,
}

-- `Equal` tells no two values apart that are the same, and holds of no others.
pub record Sound (T : ConsensusTypes) : Type 0 where
  pub evidence : (a b : T.EvidenceParams) → T.evidence_equal a b ≡ true → a ≡ b
  pub validator : (a b : T.ValidatorParams) → T.validator_equal a b ≡ true → a ≡ b
  pub abci : (a b : T.AbciParams) → T.abci_equal a b ≡ true → a ≡ b

deref_inv : {A : Type 0} (o : Option A) (a : A) → deref o ≡ ok a → o ≡ some a
deref_inv none a h = ground arith
deref_inv (some b) a h = ground arith

compare_block_inv :
    (old new : BlockParams)
    → compare_block (new_block old) new ≡ ok tt
    → new ≡ record old { max_bytes = new_max_bytes }
compare_block_inv old new h = ground arith

module _ {T : ConsensusTypes} (sound : Sound T) where
  compare_opaque_inv :
      (old new : ConsensusParams T)
      → compare_opaque old new ≡ ok tt
      → (new.evidence ≡ old.evidence) × (new.validator ≡ old.validator) × (new.abci ≡ old.abci)
  compare_opaque_inv old new h = elim (Bool-cases (T.evidence_equal old.evidence new.evidence)) [
    | inr e ↦ absurd (ground arith)
    | inl e ↦ elim (Bool-cases (T.validator_equal old.validator new.validator)) [
      | inr v ↦ absurd (ground arith)
      | inl v ↦ elim (Bool-cases (T.abci_equal old.abci new.abci)) [
        | inr a ↦ absurd (ground arith)
        | inl a ↦ (
          sym (sound.evidence old.evidence new.evidence e),
          sym (sound.validator old.validator new.validator v),
          sym (sound.abci old.abci new.abci a),
        )
      ]
    ]
  ]

compare_version_inv : (old new : ℕ) → compare_version old new ≡ ok tt → new ≡ old
compare_version_inv old new h = ground arith

module _ {T : ConsensusTypes} {X : Type 0} (keeper : ConsensusKeeper T X) (sound : Sound T) where
  compare_params_inv :
      (old : ConsensusParams T) (block : BlockParams) (new : ConsensusParams T) (u t : X)
      → compare_params keeper old block new u ≡ (ok tt, t)
      → (new ≡ record old { block = some (new_block block) }) × (t ≡ u)
  unfolding compare_params
  compare_params_inv old block new u t h =
      let version : ℕ → ℕ → Action X Done = λ v w. outcome (compare_version v w) in
      let versions : Action X Done =
        outcome (deref old.version) >>= λ v. outcome (deref new.version) >>= version v in
      let blocks : BlockParams → Action X Done =
        λ b. outcome (compare_block (new_block block) b) >> versions in
      let (_, same, h₁) =
        outcome_inv (λ _. outcome (deref new.block) >>= blocks) u t tt (compare_opaque old new) h in
      let (b, is_new, h₂) = outcome_inv blocks u t tt (deref new.block) h₁ in
      let (_, fits, h₃) =
        outcome_inv (λ _. versions) u t tt (compare_block (new_block block) b) h₂ in
      let (v, was, h₄) =
        outcome_inv (λ v. outcome (deref new.version) >>= version v) u t tt (deref old.version)
          h₃ in
      let (w, now, h₅) = outcome_inv (version v) u t tt (deref new.version) h₄ in
      let (evidence, validator, abci) = compare_opaque_inv sound old new same in
      let version_eq : new.version ≡ old.version =
        deref_inv new.version w now
        ∙ ap (λ n. some n) (compare_version_inv v w (λ i. (h₅ i).0))
        ∙ sym (deref_inv old.version v was) in
      let block_eq : new.block ≡ some (new_block block) =
        deref_inv new.block b is_new ∙ ap (λ b. some b) (compare_block_inv block b fits) in
      (
        λ i. record {
          block = block_eq i;
          evidence = evidence i;
          validator = validator i;
          abci = abci i;
          version = version_eq i;
        },
        λ i. (sym h₅ i).1,
      )

  -- A handler of v1.2.0 that succeeds gives the versions back, has sent one update with the module's
  -- authority, and leaves parameters that are the old ones with the new maximum of bytes, where `Equal`
  -- holds of equal parts only.
  pub upgrade_v_1_2_0-Kept :
      {VM : Type 0} (vm vm' : VM) (s t : X)
      → upgrade_v_1_2_0 keeper vm s ≡ (ok vm', t)
      → (vm' ≡ vm)
        × (old : ConsensusParams T) × (block : BlockParams) × (keeper.params_store s ≡ ok old)
        × (old.block ≡ some block)
        × (keeper.update_params (update_msg keeper old block) s ≡ (ok tt, t))
        × (keeper.params_store t ≡ ok (record old { block = some (new_block block) }))
  unfolding upgrade_v_1_2_0
  upgrade_v_1_2_0-Kept {VM = VM} vm vm' s t h =
      let check : ConsensusParams T → BlockParams → ConsensusParams T → Action X VM =
        λ old block new. compare_params keeper old block new >> pure vm in
      let back : ConsensusParams T → BlockParams → Action X VM = λ old block.
        keeper.update_params (update_msg keeper old block)
        >> (ask keeper.params_store >>= check old block) in
      let (old, got, h₁) =
        ask_inv (λ old. outcome (deref old.block) >>= back old) s t vm' keeper.params_store h in
      let (block, present, h₂) = outcome_inv (back old) s t vm' (deref old.block) h₁ in
      let (u, sent, h₃) =
        then_inv (keeper.update_params (update_msg keeper old block))
          (ask keeper.params_store >>= check old block) s t vm' h₂ in
      let (new, read, h₄) = ask_inv (check old block) u t vm' keeper.params_store h₃ in
      let (w, compared, h₅) = then_inv (compare_params keeper old block new) (pure vm) u t vm' h₄ in
      let (new_eq, still) = compare_params_inv old block new u w compared in
      let end : t ≡ u = (λ i. (sym h₅ i).1) ∙ still in
      (
        ground arith,
        old,
        block,
        got,
        deref_inv old.block block present,
        sent ∙ (λ i. (ok tt, sym end i)),
        ap (λ x. keeper.params_store x) end ∙ read ∙ ap (λ p. ok p) new_eq,
      )
