-- ===== src/Mint/Begin/Stored.antt =====
-- Parameters that are set are read back, and only valid ones are set.
use story.Base.{◌≡◌, ◌≢◌, ◌⊎◌, inl, inr, refl, some, arith}
use story.Action.{Outcome, ok, err, panic, Done}
use story.Mint.Params.{Decimals, Params, validate}
use story.Mint.Params.Valid.{IsValid, validate_iff}
use story.Mint.Begin.{State, get_params, set_params}

module _ (D : Decimals) {X : Type 0} (p : Params D) (s : State D X) where
  abbrev pub with_params : State D X
  with_params = record s { params = some p }

  -- Valid parameters are stored, the rest of the state kept, and are then the parameters that are read;
  -- for all others the call does not succeed and changes nothing.
  pub set_params_lem :
      (IsValid D p
        × (set_params D p s ≡ (ok tt, with_params))
        × (get_params D with_params ≡ (ok p, with_params)))
      ⊎ ((¬ IsValid D p) × ((set_params D p s).0 ≢ ok tt) × ((set_params D p s).1 ≡ s))
  unfolding set_params get_params
  set_params_lem = go (validate D p) refl
    where
      go :
          (r : Outcome Done)
          → validate D p ≡ r
          → (IsValid D p
              × (set_params D p s ≡ (ok tt, with_params))
              × (get_params D with_params ≡ (ok p, with_params)))
            ⊎ ((¬ IsValid D p) × ((set_params D p s).0 ≢ ok tt) × ((set_params D p s).1 ≡ s))
      go (ok _) e = inl ((validate_iff D p).0 e, rw (e, set_params), refl)
      go (err x) e = inr (
        (λ (v : IsValid D p). ground (arith, (validate_iff D p).1 v)),
        rw (e, set_params) (λ h. ground arith),
        rw (e, set_params),
      )
      go panic e = inr (
        (λ (v : IsValid D p). ground (arith, (validate_iff D p).1 v)),
        rw (e, set_params) (λ h. ground arith),
        rw (e, set_params),
      )
