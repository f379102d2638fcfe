-- ===== src/Staking/Handlers/Guarded.antt =====
-- What an action that succeeds must have met: guards that come before any write.
use story.Base.{◌≡◌, refl, sym, subst, ◌∙◌, arith}
use story.Errors.{Error}
use story.Action.{Outcome, ok, err, panic, Action, Done, outcome, ◌>>=◌, ◌>>◌}
use story.Action.Laws.{bind_ok_inv}
use story.Staking.Events.{Event}
use story.Staking.State.{State}
use story.Staking.Handlers.{settle, process}

-- A process that succeeds has a body that succeeds.
pub process_ok :
    {X A : Type 0} (success : A → Event) (failure : Error → Event) (body : Action (State X) A)
    (s : State X)
    → (process success failure body s).0 ≡ ok tt
    → (a : A) × ((body s).0 ≡ ok a)
unfolding process settle
process_ok {X} {A} success failure body s h = go (body s).0 (body s).1 refl h
  where
    go :
        (r : Outcome A) (t : State X)
        → (body s).0 ≡ r
        → (settle success failure s r t).0 ≡ ok tt
        → (a : A) × ((body s).0 ≡ ok a)
    go (ok a) t e h = (a, e)
    go (err x) t e h = ground arith
    go panic t e h = ground arith

-- An action that reads the state and does not write it.
pub record Reads {X A : Type 0} (m : Action (State X) A) : Type 0 where
  pub reads : (s : State X) → (m s).1 ≡ s

-- An action that succeeds only in a state with the property.
pub record Needs {X A : Type 0} (P : State X → Type 0) (m : Action (State X) A) : Type 0 where
  pub needs : (s t : State X) (a : A) → m s ≡ (ok a, t) → P s

module _ {X A B : Type 0} (P : State X → Type 0) (m : Action (State X) A)
    (f : A → Action (State X) B) where
  pub Needs-here : Needs P m → Needs P (m >>= f)
  Needs-here n = record {
    needs = λ s t b h. let (a, u, first, _) = bind_ok_inv m f s t b h in n.needs s u a first;
  }

  pub Needs-later : Reads m → ((a : A) → Needs P (f a)) → Needs P (m >>= f)
  Needs-later r n = record {
    needs = λ s t b h.
        let (a, u, first, rest) = bind_ok_inv m f s t b h in
        subst P ((λ i. (sym first i).1) ∙ r.reads s) ((n a).needs u t b rest);
  }

pub Needs-first :
    {X B : Type 0} (P : State X → Type 0) (m : Action (State X) Done) (k : Action (State X) B)
    → Needs P m
    → Needs P (m >> k)
Needs-first P m k n = Needs-here P m (λ _. k) n

pub Reads-outcome : {X A : Type 0} (r : Outcome A) → Reads {X = X} (outcome {S = State X} r)
Reads-outcome r = record { reads = λ s. refl }
