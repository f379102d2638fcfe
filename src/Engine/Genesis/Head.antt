-- ===== src/Engine/Genesis/Head.antt =====
-- What a genesis leaves: its parameters, and the head that the first payload must follow.
use story.Base.{
  ℕ, ◌≡◌, ◌∙◌, ◌≢◌, ◌⊎◌, inl, inr, refl, ap, Bool-cases, ==_iff, true, none, some, List, [], length,
  ◌==◌,
}
use story.Action.{ok, err, Action, Done, outcome, modify, ◌>>◌}
use story.Action.Laws.{bind_ok}
use story.Engine.Types.{GenesisState, ExecutionHead}
use story.Engine.Convert.{set_bytes}
use story.Engine.State.{Env, State, get_execution_head, insert_genesis_head}
use story.Engine.Genesis.{
  set_params, get_params, execution_block_hash, init_genesis, export_genesis,
  validate_execution_block_hash, or_panic,
}

module _ {X : Type 0} (env : Env X) (gs : GenesisState) (bz : List ℕ) (s : State X) where
  abbrev pub genesis_head : ExecutionHead
  genesis_head = record {
    created_height = 0;
    block_height = 0;
    block_hash = set_bytes 0 gs.params.execution_block_hash;
    block_time = 0;
  }

  abbrev pub begun : State X
  begun = record s { params = some bz; head = some genesis_head }

  insert_head :
      s.head ≡ none
      → insert_genesis_head
          (set_bytes 0 gs.params.execution_block_hash)
          (record s { params = some bz })
        ≡ (ok tt, begun)
  unfolding insert_genesis_head
  insert_head fresh = rw fresh refl

  stored :
      length gs.params.execution_block_hash == 32 ≡ true
      → s.head ≡ none
      → env.codecs.marshal_params gs.params ≡ ok bz
      → init_genesis env gs s ≡ (ok tt, begun)
  unfolding init_genesis validate_execution_block_hash set_params
  stored e fresh encoded =
      let insert_genesis : Action (State X) Done =
        λ s. or_panic (insert_genesis_head (set_bytes 0 gs.params.execution_block_hash) s) in
      bind_ok (outcome (validate_execution_block_hash gs.params.execution_block_hash))
        (λ _. set_params env gs.params >> insert_genesis) s s tt (rw e refl)
      ∙ bind_ok (set_params env gs.params) (λ _. insert_genesis) s (record s { params = some bz })
          tt
          (bind_ok (outcome (env.codecs.marshal_params gs.params))
            (λ bz. modify (λ s. record s { params = some bz })) s s bz (ap (λ r. (r, s)) encoded))
      ∙ ap or_panic (insert_head fresh)

  -- On a store with no head, and where the codec gives the parameters back, a genesis whose hash has 32
  -- bytes stores its parameters, which are then exported and read, and the head of that hash; a genesis
  -- with another hash fails and changes nothing.
  pub init_genesis_lem :
      s.head ≡ none
      → env.codecs.marshal_params gs.params ≡ ok bz
      → env.codecs.unmarshal_params bz ≡ ok gs.params
      → ((length gs.params.execution_block_hash ≡ 32)
          × (init_genesis env gs s ≡ (ok tt, begun))
          × (export_genesis env begun ≡ ok gs)
          × (execution_block_hash env begun ≡ ok gs.params.execution_block_hash)
          × (get_execution_head begun ≡ ok genesis_head))
        ⊎ ((length gs.params.execution_block_hash ≢ 32) × (init_genesis env gs s ≡ (err [], s)))
  unfolding init_genesis validate_execution_block_hash export_genesis get_params
      execution_block_hash get_execution_head
  init_genesis_lem fresh encoded decoded =
      elim (Bool-cases (length gs.params.execution_block_hash == 32)) [
        | inl e ↦ inl (
          (==_iff (length gs.params.execution_block_hash) 32).0 e,
          stored e fresh encoded,
          rw decoded refl,
          rw decoded refl,
          refl,
        )
        | inr e ↦
            inr ((λ k. cc ((==_iff (length gs.params.execution_block_hash) 32).1 k)), rw e refl)
      ]
