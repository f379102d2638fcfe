-- ===== src/Engine/Retry/Ends.antt =====
-- When the loop ends, and with what.
use story.Base.{ℕ, zero, suc, ◌<◌, ◌≡◌, refl, sym, ap, ◌∙◌, Option, none, some, arith}
use story.Errors.{Error}
use story.Action.{Outcome, ok, err, panic, Action}
use story.Engine.Retry.{Run, once, ◌>>=◌, round, retry_forever}

-- The attempt that a loop's end comes from
abbrev answer :
    {S A : Type 0} → Outcome (Option A) × S → Option (Outcome A × S) → Outcome (Option A) × S
answer d none = d
answer d (some (ok a, t)) = (ok (some a), t)
answer d (some (err x, t)) = d
answer d (some (panic, t)) = d

module _ {S A : Type 0} (ctx_err : S → Option Error) (attempt : Action S (Option A)) where
  -- Some attempts that ask for another, then one that answers, in a context that is not canceled
  pub data Answers : ℕ → S → A → S → Type 0 where
    now : {s t : S} {a : A} → attempt s ≡ (ok (some a), t) → ctx_err t ≡ none → Answers 0 s a t
    later :
        {n : ℕ} {s t u : S} {a : A}
        → attempt s ≡ (ok none, t)
        → ctx_err t ≡ none
        → Answers n t a u
        → Answers (suc n) s a u

  -- Once an attempt answers, the loop ends with its value: more fuel than the attempts that failed
  -- before is enough.
  pub retry_forever-Answers :
      (n fuel : ℕ) (s u : S) (a : A)
      → Answers n s a u
      → n < fuel
      → retry_forever ctx_err attempt fuel s ≡ some (ok a, u)
  unfolding retry_forever
  retry_forever-Answers n zero s u a h lt = absurd (omega arith)
  retry_forever-Answers zero (suc fuel) s u a (now e c) lt =
      ap (λ p. round ctx_err p (retry_forever ctx_err attempt fuel p.1)) e ∙ rw (c, round) refl
  retry_forever-Answers (suc n) (suc fuel) s u a (later {t = t} e c h) lt =
      ap (λ p. round ctx_err p (retry_forever ctx_err attempt fuel p.1)) e
      ∙ rw (c, round) (retry_forever-Answers n fuel t u a h (omega arith))

  -- A loop that ends with a value has seen an attempt that answers with it, after fewer attempts that
  -- failed than it has fuel.
  pub Answers-retry_forever :
      (n : ℕ) (s u : S) (a : A)
      → retry_forever ctx_err attempt n s ≡ some (ok a, u)
      → (k : ℕ) × (k < n) × Answers k s a u
  unfolding retry_forever
  Answers-retry_forever zero s u a h = ground arith
  Answers-retry_forever (suc n) s u a h =
      go (attempt s) refl (Answers-retry_forever n (attempt s).1 u a) h
    where
      failed :
          (c : Option Error) (x : Error) (t : S)
          → ◌≡◌ {A = Option (Outcome A × S)}
              (elim c [ some e ↦ some (err e, t) | none ↦ some (err x, t) ])
              (some (ok a, u))
          → (k : ℕ) × (k < suc n) × Answers k s a u
      failed none x t h = ground arith
      failed (some e) x t h = ground arith

      decide :
          (r : Option A) (t : S) (c : Option Error)
          → attempt s ≡ (ok r, t)
          → ctx_err t ≡ c
          → (retry_forever ctx_err attempt n t ≡ some (ok a, u)
              → (k : ℕ) × (k < n) × Answers k t a u)
          → ◌≡◌ {A = Option (Outcome A × S)}
              (elim c [
                | some e ↦ some (err e, t)
                | none ↦ elim r [
                  | none ↦ retry_forever ctx_err attempt n t
                  | some a ↦ some (ok a, t)
                ]
              ])
              (some (ok a, u))
          → (k : ℕ) × (k < suc n) × Answers k s a u
      decide none t none e c ih h =
          let (k, less, later_one) = ih h in (suc k, omega (arith, less), later e c later_one)
      decide (some b) t none e c ih h =
          let same = ap (answer (ok (some b), t)) h in
          (zero, omega arith, now (e ∙ same) (ap (λ p. ctx_err p.1) (sym same) ∙ c))
      decide r t (some x) e c ih h = ground arith

      go :
          (p : Outcome (Option A) × S)
          → attempt s ≡ p
          → (retry_forever ctx_err attempt n p.1 ≡ some (ok a, u)
              → (k : ℕ) × (k < n) × Answers k p.1 a u)
          → round ctx_err p (retry_forever ctx_err attempt n p.1) ≡ some (ok a, u)
          → (k : ℕ) × (k < suc n) × Answers k s a u
      go (ok r, t) e ih h = decide r t (ctx_err t) e refl ih h
      go (err x, t) e ih h = failed (ctx_err t) x t h
      go (panic, t) e ih h = ground arith

-- A sequence that ends with a value: what its first call has returned, and the rest.
pub bind_ok_inv :
    {S A B : Type 0} (m : Run S A) (f : A → Run S B) (s u : S) (b : B)
    → (m >>= f) s ≡ some (ok b, u)
    → (a : A) × (t : S) × (m s ≡ some (ok a, t)) × (f a t ≡ some (ok b, u))
bind_ok_inv {S} {A} {B} m f s u b h = go (m s) refl h
  where
    go :
        (p : Option (Outcome A × S))
        → m s ≡ p
        → ◌≡◌ {A = Option (Outcome B × S)}
            (elim p [
              | none ↦ none
              | some p ↦ elim p.0 [
                | ok a ↦ f a p.1
                | err e ↦ some (err e, p.1)
                | panic ↦ some (panic, p.1)
              ]
            ])
            (some (ok b, u))
        → (a : A) × (t : S) × (m s ≡ some (ok a, t)) × (f a t ≡ some (ok b, u))
    go none e h = ground arith
    go (some (ok a, t)) e h = (a, t, e, h)
    go (some (err x, t)) e h = ground arith
    go (some (panic, t)) e h = ground arith

pub bind_ok :
    {S A B : Type 0} (m : Run S A) (f : A → Run S B) (s t : S) (a : A)
    → m s ≡ some (ok a, t)
    → (m >>= f) s ≡ f a t
bind_ok {S} {A} {B} m f s t a e = ap next e
  where
    next : Option (Outcome A × S) → Option (Outcome B × S)
    next o = elim o [
      | none ↦ none
      | some p ↦ elim p.0 [ ok a ↦ f a p.1 | err e ↦ some (err e, p.1) | panic ↦ some (panic, p.1) ]
    ]

-- A call that did not wait, and a value that stands at once
pub once_inv :
    {S A : Type 0} (m : Action S A) (s t : S) (a : A) → once m s ≡ some (ok a, t) → m s ≡ (ok a, t)
once_inv {S} {A} m s t a e = ap end e
  where
    end : Option (Outcome A × S) → Outcome A × S
    end none = m s
    end (some p) = p

pub ended_inv :
    {S A : Type 0} (s t : S) (a b : A)
    → ◌≡◌ {A = Outcome A × S} (ok a, s) (ok b, t)
    → (a ≡ b) × (s ≡ t)
ended_inv {S} {A} s t a b e = (ap (λ p. value p.0) e, ap (λ p. p.1) e)
  where
    value : Outcome A → A
    value (ok x) = x
    value (err x) = a
    value panic = a
