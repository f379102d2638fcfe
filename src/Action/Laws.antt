-- ===== src/Action/Laws.antt =====
-- How a sequence of calls runs once its first call is known.
use story.Base.{◌≡◌, refl, sym, ap, Bool, true, false, arith}
use story.Errors.{Error}
use story.Action.{Outcome, ok, err, panic, Action, Done, ask, outcome, fail_if, ◌>>=◌, ◌>>◌}

module _ {S A B : Type 0} (m : Action S A) (f : A → Action S B) (s t : S) where
  abbrev next : Outcome A × S → Outcome B × S
  next p = elim p.0 [ ok a ↦ f a p.1 | err e ↦ (err e, p.1) | panic ↦ (panic, p.1) ]

  pub bind_ok : (a : A) → m s ≡ (ok a, t) → (m >>= f) s ≡ f a t
  bind_ok a e = ap next e

  pub bind_err : (x : Error) → m s ≡ (err x, t) → (m >>= f) s ≡ (err x, t)
  bind_err x e = ap next e

  pub bind_panic : m s ≡ (panic, t) → (m >>= f) s ≡ (panic, t)
  bind_panic e = ap next e

  -- A sequence that ends with a value: what its first call has returned, and the rest.
  pub bind_ok_inv :
      (b : B)
      → (m >>= f) s ≡ (ok b, t)
      → (a : A) × (u : S) × (m s ≡ (ok a, u)) × (f a u ≡ (ok b, t))
  bind_ok_inv b h = go (m s) refl h
    where
      go :
          (p : Outcome A × S)
          → m s ≡ p
          → next p ≡ (ok b, t)
          → (a : A) × (u : S) × (m s ≡ (ok a, u)) × (f a u ≡ (ok b, t))
      go (ok a, u) e h = (a, u, e, h)
      go (err x, u) e h = ground arith
      go (panic, u) e h = ground arith

module _ {S A B : Type 0} (f : A → Action S B) (s t : S) (b : B) where
  pub ask_inv :
      (g : S → Outcome A)
      → (ask g >>= f) s ≡ (ok b, t)
      → (a : A) × (g s ≡ ok a) × (f a s ≡ (ok b, t))
  ask_inv g h = go (g s) refl h
    where
      go :
          (r : Outcome A)
          → g s ≡ r
          → ◌≡◌ {A = Outcome B × S}
              (elim r [ ok a ↦ f a s | err e ↦ (err e, s) | panic ↦ (panic, s) ])
              (ok b, t)
          → (a : A) × (g s ≡ ok a) × (f a s ≡ (ok b, t))
      go (ok a) e h = (a, e, h)
      go (err x) e h = ground arith
      go panic e h = ground arith

  pub outcome_inv :
      (r : Outcome A) → (outcome r >>= f) s ≡ (ok b, t) → (a : A) × (r ≡ ok a) × (f a s ≡ (ok b, t))
  outcome_inv r = ask_inv (λ _. r)

module _ {S B : Type 0} where
  -- A call without a value, and what follows it.
  pub then_inv :
      (m : Action S Done) (k : Action S B) (s t : S) (b : B)
      → (m >> k) s ≡ (ok b, t)
      → (u : S) × (m s ≡ (ok tt, u)) × (k u ≡ (ok b, t))
  then_inv m k s t b h = let (_, u, done, rest) = bind_ok_inv m (λ _. k) s t b h in (u, done, rest)

pub fail_if_inv :
    {S : Type 0} (c : Bool) (e : Error) (s t : S)
    → fail_if c e s ≡ (ok tt, t)
    → (c ≡ false) × (t ≡ s)
fail_if_inv true e s t h = ground arith
fail_if_inv false e s t h = (refl, λ i. (sym h i).1)
