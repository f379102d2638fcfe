-- ===== src/Staking/Sweep/After.antt =====
-- What holds after a call, with what it leaves behind a failure.
use story.Base.{ℕ, ◌+◌, ◌≤◌, ◌≡◌, refl, Bool, true, false, if◌then◌else◌, arith}
use story.Action.{Outcome, ok, err, panic, Action, ◌>>=◌, outcome}
use story.Staking.State.{State}
use story.Staking.Sweep.Adds.{Adds, queued}

abbrev pub Post : {S A : Type 0} → (A → S → Type 0) → (S → Type 0) → Outcome A × S → Type 0
Post Q E (ok a, t) = Q a t
Post Q E (err x, t) = E t
Post Q E (panic, t) = E t

-- What holds after a call: `Q` of its value and the state after a success, `E` after a failure.
pub record After {S A : Type 0} (Q : A → S → Type 0) (E : S → Type 0) (p : Outcome A × S)
    : Type 0 where
  pub holds : Post Q E p

module _ {S A B : Type 0} {Q : A → S → Type 0} {E : S → Type 0} {R : B → S → Type 0} where
  pub After-bind :
      (m : Action S A) (f : A → Action S B) (s : S)
      → After Q E (m s)
      → ((a : A) (t : S) → Q a t → After R E (f a t))
      → After R E ((m >>= f) s)
  After-bind m f s h k = go (m s) h.holds
    where
      go :
          (p : Outcome A × S)
          → Post Q E p
          → After R E (elim p.0 [ ok a ↦ f a p.1 | err e ↦ (err e, p.1) | panic ↦ (panic, p.1) ])
      go (ok a, t) q = k a t q
      go (err x, t) q = record { holds = q }
      go (panic, t) q = record { holds = q }

module _ {S A : Type 0} {Q : A → S → Type 0} {E : S → Type 0} where
  pub After-if :
      (b : Bool) (m n : Action S A) (s : S)
      → (b ≡ true → After Q E (m s))
      → (b ≡ false → After Q E (n s))
      → After Q E ((if b then m else n) s)
  After-if true m n s h k = h refl
  After-if false m n s h k = k refl

module _ {S A : Type 0} {Q R : A → S → Type 0} {E F : S → Type 0} {p : Outcome A × S} where
  pub After-weaken :
      After Q E p → ((a : A) (t : S) → Q a t → R a t) → ((t : S) → E t → F t) → After R F p
  After-weaken h f g = record { holds = go p h.holds }
    where
      go : (p : Outcome A × S) → Post Q E p → Post R F p
      go (ok a, t) q = f a t q
      go (err x, t) q = g t q
      go (panic, t) q = g t q

pub After-outcome :
    {S A : Type 0} {E : S → Type 0} (r : Outcome A) (s : S)
    → E s
    → After (λ a t. (t ≡ s) × (r ≡ ok a)) E (outcome r s)
After-outcome (ok a) s h = record { holds = (refl, refl) }
After-outcome (err x) s h = record { holds = h }
After-outcome panic s h = record { holds = h }

pub After-Adds :
    {X A : Type 0} (k d : ℕ) (m : Action (State X) A) (s : State X)
    → Adds k m
    → k ≤ d
    → After (λ _ t. queued t ≤ queued s + k) (λ t. queued t ≤ queued s + d) (m s)
After-Adds {X} {A} k d m s h le = go (m s) (h.adds s)
  where
    go :
        (p : Outcome A × State X)
        → queued p.1 ≤ queued s + k
        → After (λ _ t. queued t ≤ queued s + k) (λ t. queued t ≤ queued s + d) p
    go (ok a, t) q = record { holds = q }
    go (err x, t) q = record { holds = omega arith }
    go (panic, t) q = record { holds = omega arith }
