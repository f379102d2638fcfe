-- ===== src/Engine/Retry.antt =====
-- client/x/evmengine/keeper/helpers.go, `retryForever`: calls of the execution client are repeated
-- until one answers. The loop runs on fuel, and `none` is a loop that has not ended yet; the waiting
-- between attempts is left out.
pub mod Ends
use story.Base.{ℕ, zero, suc, Bool, true, false, Option, none, some}
use story.Errors.{Error}
use story.Action.{Outcome, ok, err, panic, Action}

abbrev pub Run : Type 0 → Type 0 → Type 0
Run S A = S → Option (Outcome A × S)

module _ {S A : Type 0} where
  -- A call that does not wait
  abbrev pub once : Action S A → Run S A
  once m s = some (m s)

  -- What a round makes of an attempt: `ok none` asks for the next one. A canceled context ends the
  -- loop, whatever the attempt has returned.
  abbrev pub round :
      (S → Option Error) → Outcome (Option A) × S → Option (Outcome A × S) → Option (Outcome A × S)
  round ctx_err (panic, t) rest = some (panic, t)
  round ctx_err (ok r, t) rest = elim (ctx_err t) [
    | some e ↦ some (err e, t)
    | none ↦ elim r [ none ↦ rest | some a ↦ some (ok a, t) ]
  ]
  round ctx_err (err x, t) rest = elim (ctx_err t) [
    | some e ↦ some (err e, t)
    | none ↦ some (err x, t)
  ]

  unfoldable pub retry_forever : (S → Option Error) → Action S (Option A) → ℕ → Run S A
  retry_forever ctx_err attempt zero s = none
  retry_forever ctx_err attempt (suc n) s =
      let rest = retry_forever ctx_err attempt n (attempt s).1 in round ctx_err (attempt s) rest

infixl 5 ◌>>=◌ ◌>>◌
abbrev pub ◌>>=◌ : {S A B : Type 0} → Run S A → (A → Run S B) → Run S B
◌>>=◌ m f s = elim (m s) [
  | none ↦ none
  | some p ↦ elim p.0 [ ok a ↦ f a p.1 | err e ↦ some (err e, p.1) | panic ↦ some (panic, p.1) ]
]

abbrev pub ◌>>◌ : {S A B : Type 0} → Run S A → Run S B → Run S B
m >> k = m >>= λ _. k
