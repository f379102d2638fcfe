-- ===== src/Keys/Signed.antt =====
-- k1util.go: a signature against its check.
use story.Base.{
  ℕ, ◌+◌, ◌-◌, ◌≡◌, ◌⊎◌, refl, sym, ap, subst, true, false, not, ◌&&◌, some, List, [], ◌∷◌, ◌++◌,
  length, take, get_elem?, ◌==◌, arith, length-append, get_elem?-append,
}
use story.Action.{ok}
use story.Keys.{Curve, sign, verify_sig, array_65}

-- What the libraries document of a compact signature of a key: the recovery code, which is 27 and the
-- recovery id for an uncompressed key, then R and S of 32 bytes each; and that the key's point is
-- recovered from R, S and the id. An id of 2 or 3 is possible and not among these.
pub record Compact {K : Type 0} (curve : Curve K) (key : List ℕ) (k : K) (hash : List ℕ)
    : Type 0 where
  pub id : ℕ
  pub rs : List ℕ
  pub low : (id ≡ 0) ⊎ (id ≡ 1)
  pub rs_length : length rs ≡ 64
  pub signed : curve.sign_compact key hash ≡ (27 + id) ∷ rs
  pub recovers : curve.sig_to_pub hash (rs ++ id ∷ []) ≡ ok (curve.public_key k)

take_append {ℓ} : {A : Type ℓ} (xs ys : List A) → take (length xs) (xs ++ ys) ≡ xs
take_append [] ys = refl
take_append (x ∷ xs) ys = ap (◌∷◌ x) (take_append xs ys)

module _ {K : Type 0} (curve : Curve K) (key : List ℕ) (k : K) (hash : List ℕ)
    (long : length key ≡ 32) (compact : Compact curve key k hash) where
  sign_lem : sign curve key hash ≡ ok (compact.rs ++ (27 + compact.id) ∷ [])
  unfolding sign array_65
  sign_lem =
      let fits : (length key == 32) ≡ true = ground arith in
      let whole : (length (compact.rs ++ (27 + compact.id) ∷ []) == 65) ≡ true =
        let e = compact.rs_length in
        ground (arith, length-append compact.rs ((27 + compact.id) ∷ [])) in
      rw (fits, compact.signed, whole) refl

  -- For a key of 32 bytes whose compact signature has the recovery id 0 or 1, `Sign` succeeds, and
  -- `Verify` accepts its signature for the address of the key.
  pub verify_sig-sign :
      (sig : List ℕ) × (sign curve key hash ≡ ok sig)
      × (verify_sig curve (curve.pubkey_to_address (curve.public_key k)) hash sig ≡ ok true)
  unfolding verify_sig
  verify_sig-sign =
      let sig : List ℕ = compact.rs ++ (27 + compact.id) ∷ [] in
      let at : get_elem? sig 64 ≡ some (27 + compact.id) =
        get_elem?-append compact.rs (27 + compact.id) 64 (sym compact.rs_length) in
      let front : take 64 sig ≡ compact.rs =
        subst (λ n. take n sig ≡ compact.rs) compact.rs_length
          (take_append compact.rs ((27 + compact.id) ∷ [])) in
      let back : 27 + compact.id - 27 ≡ compact.id = omega arith in
      let code : (not (27 + compact.id == 27) && not (27 + compact.id == 28)) ≡ false =
        let low = compact.low in ground arith in
      let address : ℕ = curve.pubkey_to_address (curve.public_key k) in
      let itself : (address == address) ≡ true = ground arith in
      (sig, sign_lem, rw (at, verify_sig, code, front, back, compact.recovers, itself) refl)
