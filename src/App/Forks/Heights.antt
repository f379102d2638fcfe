-- ===== src/App/Forks/Heights.antt =====
-- The heights of the forks and those of lib/netconf.
use text.Mathlib.Text.{◌==◌ as str_eq}
use text.Mathlib.TextEquality.{eq_iff}
use story.Base.{
  ◌≡◌, sym, subst, refl, Bool-cases, inl, inr, false, String, Option, none, some, map, [], ◌∷◌,
  arith,
}
use story.Errors.{cause, unknown_chain_id}
use story.Action.{Outcome, ok, err, panic}
use story.Netconf.{
  test_chain_id, local_chain_id, story_localnet_id, aeneid_chain_id, story_chain_id,
  get_upgrade_height, get_upgrade_history, get_upgrade_block, virgil, ovid, polybius, terence,
}
use story.App.Forks.{
  forks, fork_height, virgil_upgrade_height, v_1_2_0_upgrade_height, polybius_upgrade_height,
  terence_upgrade_height,
}

abbrev pub to_option : {A : Type 0} → Outcome A → Option A
to_option (ok a) = some a
to_option (err e) = none
to_option panic = none

-- To show a fact of every network: at each that has a history, and at one that has none.
by_chain :
    (P : String → Type 0) (c : String)
    → P test_chain_id
    → P local_chain_id
    → P story_localnet_id
    → P aeneid_chain_id
    → P story_chain_id
    → (str_eq c test_chain_id ≡ false
        → str_eq c local_chain_id ≡ false
        → str_eq c story_localnet_id ≡ false
        → str_eq c aeneid_chain_id ≡ false
        → str_eq c story_chain_id ≡ false
        → P c)
    → P c
by_chain P c p₁ p₂ p₃ p₄ p₅ other = elim (Bool-cases (str_eq c test_chain_id)) [
  | inl e ↦ subst P (sym ((eq_iff c test_chain_id).0 e)) p₁
  | inr n₁ ↦ elim (Bool-cases (str_eq c local_chain_id)) [
    | inl e ↦ subst P (sym ((eq_iff c local_chain_id).0 e)) p₂
    | inr n₂ ↦ elim (Bool-cases (str_eq c story_localnet_id)) [
      | inl e ↦ subst P (sym ((eq_iff c story_localnet_id).0 e)) p₃
      | inr n₃ ↦ elim (Bool-cases (str_eq c aeneid_chain_id)) [
        | inl e ↦ subst P (sym ((eq_iff c aeneid_chain_id).0 e)) p₄
        | inr n₄ ↦ elim (Bool-cases (str_eq c story_chain_id)) [
          | inl e ↦ subst P (sym ((eq_iff c story_chain_id).0 e)) p₅
          | inr n₅ ↦ other n₁ n₂ n₃ n₄ n₅
        ]
      ]
    ]
  ]
]

-- A network without a history has no fork.
module _ (c : String) (n₁ : str_eq c test_chain_id ≡ false) (n₂ : str_eq c local_chain_id ≡ false)
    (n₃ : str_eq c story_localnet_id ≡ false) (n₄ : str_eq c aeneid_chain_id ≡ false)
    (n₅ : str_eq c story_chain_id ≡ false) where
  no_history : (name : String) → get_upgrade_height c name ≡ err (cause unknown_chain_id ∷ [])
  unfolding get_upgrade_height get_upgrade_history
  no_history name = ground arith

  no_virgil : virgil_upgrade_height c ≡ none
  unfolding virgil_upgrade_height
  no_virgil = rw (n₄, n₅) refl

  no_v_1_2_0 : v_1_2_0_upgrade_height c ≡ none
  unfolding v_1_2_0_upgrade_height
  no_v_1_2_0 = rw (n₄, n₅) refl

  no_polybius : polybius_upgrade_height c ≡ none
  unfolding polybius_upgrade_height
  no_polybius = rw (n₄, n₅) refl

  no_terence : terence_upgrade_height c ≡ none
  unfolding terence_upgrade_height
  no_terence = rw (no_history terence, terence_upgrade_height) refl

abbrev pub Agree : String → Type 0
Agree c =
    map (λ f. fork_height c f.upgrade_name) forks
    ≡ map (λ f. to_option (get_upgrade_height c f.upgrade_name)) forks

-- On every network, each fork has the height that the network's history has for its name, and is
-- skipped where the history has none.
pub fork_height-get_upgrade_height : (chain_id : String) → Agree chain_id
unfolding fork_height virgil_upgrade_height v_1_2_0_upgrade_height polybius_upgrade_height
    terence_upgrade_height get_upgrade_height get_upgrade_history get_upgrade_block
fork_height-get_upgrade_height chain_id =
    by_chain Agree chain_id refl refl refl refl refl (λ n₁ n₂ n₃ n₄ n₅.
      let no = no_history chain_id n₁ n₂ n₃ n₄ n₅ in
      rw
        (
          no virgil,
          no ovid,
          no polybius,
          no terence,
          no_virgil chain_id n₁ n₂ n₃ n₄ n₅,
          no_v_1_2_0 chain_id n₁ n₂ n₃ n₄ n₅,
          no_polybius chain_id n₁ n₂ n₃ n₄ n₅,
          no_terence chain_id n₁ n₂ n₃ n₄ n₅,
        )
        refl)
