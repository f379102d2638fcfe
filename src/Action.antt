-- ===== src/Action.antt =====
-- What a Go call leaves behind: a value, an error or a panic, and the state, also after a failure.
pub mod Laws
use story.Base.{Bool, true, false}
use story.Errors.{Error}

pub data Outcome (A : Type 0) : Type 0 where
  ok : A → Outcome A
  err : Error → Outcome A
  panic : Outcome A

abbrev pub Action : Type 0 → Type 0 → Type 0
Action S A = S → Outcome A × S

abbrev pub Done : Type 0
Done = Unit {0}

module _ {S A : Type 0} where
  abbrev pub pure : A → Action S A
  pure a s = (ok a, s)

  abbrev pub fail : Error → Action S A
  fail e s = (err e, s)

  -- A read of the state that can fail.
  abbrev pub ask : (S → Outcome A) → Action S A
  ask f s = (f s, s)

  abbrev pub gets : (S → A) → Action S A
  gets f s = (ok (f s), s)

  -- An error seen by the caller before it is passed on.
  abbrev pub map_err : (Error → Error) → Action S A → Action S A
  map_err f m s =
      let (r, s') = m s in (elim r [ ok a ↦ ok a | err e ↦ err (f e) | panic ↦ panic ], s')

module _ {S : Type 0} where
  abbrev pub modify : (S → S) → Action S Done
  modify f s = (ok tt, f s)

  abbrev pub fail_if : Bool → Error → Action S Done
  fail_if true e s = (err e, s)
  fail_if false e s = (ok tt, s)

infixl 5 ◌>>=◌ ◌>>◌
abbrev pub ◌>>=◌ : {S A B : Type 0} → Action S A → (A → Action S B) → Action S B
◌>>=◌ m f s =
    let (r, s') = m s in elim r [ ok a ↦ f a s' | err e ↦ (err e, s') | panic ↦ (panic, s') ]

abbrev pub ◌>>◌ : {S A B : Type 0} → Action S A → Action S B → Action S B
m >> k = m >>= λ _. k

-- A result that does not depend on the state.
abbrev pub outcome : {S A : Type 0} → Outcome A → Action S A
outcome r s = (r, s)
