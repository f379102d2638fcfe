-- ===== src/Engine/Withdrawals/Compare.antt =====
-- client/x/evmengine/keeper/proposal_server.go: the comparison of lists, against their equality.
use story.Base.{
  ◌+◌, ◌≡◌, ◌↔◌, refl, sym, ap, subst, ◌∙◌, Option, none, some, List, [], ◌∷◌, ◌++◌, map,
  append-nil, length, length-append, length-map, arith,
}
use story.Action.{Outcome, ok, err, panic, Done}
use story.Staking.Types.{ElWithdrawal}
use story.Engine.Withdrawals.{same_withdrawal, compare_each, succeed, compare_rest, compare_all}

same_iff :
    (e : ElWithdrawal) (a : Option ElWithdrawal) → (same_withdrawal e a ≡ ok tt) ↔ (a ≡ some e)
same_iff e none = ((λ h. ground arith), (λ h. ground arith))
same_iff e (some a) = (
  (λ h. ap some (λ i. record {
    index = index_eq h i;
    validator = validator_eq h i;
    address = address_eq h i;
    amount = amount_eq h i;
  })),
  λ h. subst (λ x. same_withdrawal e x ≡ ok tt) (sym h) (ground arith),
)
  where
    index_eq : same_withdrawal e (some a) ≡ ok tt → a.index ≡ e.index
    index_eq h = ground arith

    validator_eq : same_withdrawal e (some a) ≡ ok tt → a.validator ≡ e.validator
    validator_eq h = ground arith

    address_eq : same_withdrawal e (some a) ≡ ok tt → a.address ≡ e.address
    address_eq h = ground arith

    amount_eq : same_withdrawal e (some a) ≡ ok tt → a.amount ≡ e.amount
    amount_eq h = ground arith

abbrev pub pointers : List ElWithdrawal → List (Option ElWithdrawal)
pointers ws = map some ws

compare_each_sound :
    (es : List ElWithdrawal) (actual rest : List (Option ElWithdrawal))
    → compare_each es actual ≡ ok rest
    → actual ≡ pointers es ++ rest
compare_each_sound [] actual rest h = ground arith
compare_each_sound (e ∷ es) [] rest h = ground arith
compare_each_sound (e ∷ es) (a ∷ actual) rest h =
    go (same_withdrawal e a) refl (compare_each_sound es actual rest) h
  where
    go :
        (r : Outcome Done)
        → same_withdrawal e a ≡ r
        → (compare_each es actual ≡ ok rest → actual ≡ pointers es ++ rest)
        → elim r [ ok _ ↦ compare_each es actual | err x ↦ err x | panic ↦ panic ] ≡ ok rest
        → a ∷ actual ≡ pointers (e ∷ es) ++ rest
    go (ok tt) k ih h = λ i. (same_iff e a).0 k i ∷ ih h i
    go (err x) k ih h = ground arith
    go panic k ih h = ground arith

compare_each_complete :
    (es : List ElWithdrawal) (rest : List (Option ElWithdrawal))
    → compare_each es (pointers es ++ rest) ≡ ok rest
compare_each_complete [] rest = refl
compare_each_complete (e ∷ es) rest =
    rw ((same_iff e (some e)).1 refl, compare_each) (compare_each_complete es rest)

pub length-pointers :
    (es : List ElWithdrawal) (rest : List (Option ElWithdrawal))
    → length (pointers es ++ rest) ≡ length es + length rest
length-pointers es rest =
    omega (arith, length-append (pointers es) rest, length-map {A = ElWithdrawal} some es)

length_zero : {A : Type 0} (xs : List A) → length xs ≡ 0 → xs ≡ []
length_zero [] h = refl
length_zero (x ∷ xs) h = absurd (omega arith)

succeed_sound :
    (rs : List ElWithdrawal) (rest : List (Option ElWithdrawal))
    (r : Outcome (List (Option ElWithdrawal)))
    → compare_each rs rest ≡ r
    → succeed r ≡ ok tt
    → length rest ≡ length rs
    → rest ≡ pointers rs
succeed_sound rs rest (ok end) k h l =
    let e : rest ≡ pointers rs ++ end = compare_each_sound rs rest end k in
    let nothing : end ≡ [] =
      length_zero end (omega (arith, l, ap length e, length-pointers rs end)) in
    e ∙ ap (λ x. pointers rs ++ x) nothing ∙ append-nil (pointers rs)
succeed_sound rs rest (err x) k h l = ground arith
succeed_sound rs rest panic k h l = ground arith

compare_rest_sound :
    (es rs : List ElWithdrawal) (actual : List (Option ElWithdrawal))
    (r : Outcome (List (Option ElWithdrawal)))
    → length es + length rs ≡ length actual
    → compare_each es actual ≡ r
    → compare_rest rs r ≡ ok tt
    → actual ≡ pointers es ++ pointers rs
compare_rest_sound es rs actual (ok rest) len k h =
    let e : actual ≡ pointers es ++ rest = compare_each_sound es actual rest k in
    e
    ∙ ap (λ x. pointers es ++ x)
        (succeed_sound rs rest (compare_each rs rest) refl h
          (omega (arith, len, ap length e, length-pointers es rest)))
compare_rest_sound es rs actual (err x) len k h = ground arith
compare_rest_sound es rs actual panic len k h = ground arith

-- Both loops pass exactly when the payload's withdrawals are those expected, in their order.
pub compare_all_iff :
    (es rs : List ElWithdrawal) (actual : List (Option ElWithdrawal))
    → length es + length rs ≡ length actual
    → (compare_all es rs actual ≡ ok tt) ↔ (actual ≡ pointers es ++ pointers rs)
compare_all_iff es rs actual len = (
  compare_rest_sound es rs actual (compare_each es actual) len refl,
  λ h.
      subst (λ a. compare_all es rs a ≡ ok tt) (sym h)
        (rw (compare_each_complete es (pointers rs), all rs) refl),
)
  where
    all : (rs : List ElWithdrawal) → compare_each rs (pointers rs) ≡ ok []
    all rs =
        subst (λ x. compare_each rs x ≡ ok []) (append-nil (pointers rs))
          (compare_each_complete rs [])
