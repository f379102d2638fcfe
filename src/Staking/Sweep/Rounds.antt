-- ===== src/Staking/Sweep/Rounds.antt =====
-- One round of a block's sweep, and the loop of rounds.
use mathlib.Core.Bool.{false≢true}
use native.Mathlib.Nat.{mod-lt}
use story.Base.{
  ℕ, zero, suc, ◌+◌, ◌-◌, ◌%◌, ◌≤◌, ◌<◌, ◌≡◌, refl, sym, subst, ap, Bool, true, false, List, length,
  take, drop, length-take, length-drop, if◌then◌else◌, leb, ltb, u32_mod, u64_mod, arith,
}
use story.Action.{ok, ◌>>=◌, pure, outcome}
use story.Staking.External.{Env, Validator, Delegation}
use story.Staking.State.{State, query}
use story.Staking.Sweep.{
  Cursor, at_index, next_validator, process_delegations, sweep_delegations, sweep_validator, visit,
  visit_address, visit_delegations, sweep_loop,
}
use story.Staking.Sweep.After.{After, After-bind, After-if, After-outcome, After-weaken, After-Adds}
use story.Staking.Sweep.Adds.{queued, process_delegations-Adds}

-- What a round that starts at `c` in state `s` leaves: at most the rest of the bound is queued, the
-- index is in range, and a round that does not stop the sweep counted what it queued.
pub record Round {X : Type 0} (bound n : ℕ) (c : Cursor) (s : State X) (p : Bool × Cursor)
    (t : State X) : Type 0 where
  pub within : queued t ≤ queued s + (bound - c.swept)
  pub in_range : p.1.val_index < n
  pub counted : p.0 ≡ false → (p.1.swept ≤ bound) × (queued t + c.swept ≤ queued s + p.1.swept)

abbrev pub Within : {X : Type 0} → ℕ → Cursor → State X → State X → Type 0
Within bound c s t = queued t ≤ queued s + (bound - c.swept)

module _ {X : Type 0} (env : Env X)
    (few : (v : ℕ) (x : X) (ds : List Delegation)
      → env.get_validator_delegations v x ≡ ok ds
      → length ds < u32_mod)
    (min_amount bound : ℕ) (bound_lt : bound < u32_mod) where
  sweep_delegations-Round :
      (n : ℕ) (v : Validator) (next : List Delegation) (c : Cursor) (s : State X)
      → length next < u32_mod
      → c.swept ≤ bound
      → c.val_index < n
      → After
          (Round bound n c s)
          (Within bound c s)
          (sweep_delegations env min_amount bound n v next c s)
  unfolding sweep_delegations
  sweep_delegations-Round n v next c s l le i =
      After-if (ltb ((bound + u32_mod - c.swept) % u32_mod) (length next % u32_mod)) _ _ s
        (λ e.
          After-bind
            (process_delegations env min_amount v
              (take ((bound + u32_mod - c.swept) % u32_mod) next) c.val_del_index)
            (λ i. pure (true, record c { val_del_index = i })) s
            (After-Adds (length (take ((bound + u32_mod - c.swept) % u32_mod) next))
              (bound - c.swept) _ s
              (process_delegations-Adds env min_amount v
                (take ((bound + u32_mod - c.swept) % u32_mod) next) c.val_del_index)
              (omega (arith, length-take ((bound + u32_mod - c.swept) % u32_mod) next)))
            (λ a t q. record {
              holds = record {
                within = omega (arith, length-take ((bound + u32_mod - c.swept) % u32_mod) next);
                in_range = i;
                counted = λ x. absurd (false≢true (sym x));
              };
            }))
        (λ e.
          After-bind (process_delegations env min_amount v next c.val_del_index)
            (λ i.
              let c' : Cursor = next_validator n (record c { val_del_index = i }) in
              pure (false, record c' { swept = (c'.swept + length next % u32_mod) % u32_mod }))
            s
            (After-Adds (length next) (bound - c.swept) _ s
              (process_delegations-Adds env min_amount v next c.val_del_index) (ground arith))
            (λ a t q. record {
              holds = record {
                within = ground arith;
                in_range = mod-lt ((c.val_index + 1) % u64_mod) (omega arith);
                counted = λ x. (ground arith, ground arith);
              };
            }))

  -- A round that passes over a validator queues nothing.
  skip-Round :
      (n : ℕ) (c : Cursor) (s t : State X)
      → t ≡ s
      → c.swept ≤ bound
      → c.val_index < n
      → After (Round bound n c s) (Within bound c s) (pure (false, next_validator n c) t)
  skip-Round n c s t e le i = record {
    holds = record {
      within = omega (arith, ap queued e);
      in_range = mod-lt ((c.val_index + 1) % u64_mod) (omega arith);
      counted = λ x. (le, omega (arith, ap queued e));
    };
  }

  visit-Round :
      (n : ℕ) (v : Validator) (c : Cursor) (s : State X)
      → c.swept ≤ bound
      → c.val_index < n
      → After (Round bound n c s) (Within bound c s) (visit env min_amount bound n c v s)
  unfolding visit visit_address visit_delegations
  visit-Round n v c s le i =
      After-if v.jailed (pure (false, next_validator n c))
        (outcome (env.validator_codec v.operator) >>= visit_address env min_amount bound n v c) s
        (λ _. skip-Round n c s s refl le i)
        (λ _.
          After-bind (outcome (env.validator_codec v.operator))
            (visit_address env min_amount bound n v c) s (After-outcome _ s (omega arith))
            (λ a t p.
              subst
                (λ u.
                  After (Round bound n c s) (Within bound c s)
                    (visit_address env min_amount bound n v c a u))
                (sym p.0)
                (After-bind (query (env.get_validator_delegations a))
                  (visit_delegations env min_amount bound n v c) s
                  (After-outcome (env.get_validator_delegations a s.ext) s (omega arith))
                  (λ ds t p.
                    subst
                      (λ u.
                        After (Round bound n c s) (Within bound c s)
                          (visit_delegations env min_amount bound n v c ds u))
                      (sym p.0)
                      (After-if (leb (length ds) c.val_del_index) (pure (false, next_validator n c))
                        (sweep_delegations env min_amount bound n v (drop c.val_del_index ds) c) s
                        (λ _. skip-Round n c s s refl le i)
                        (λ _.
                          sweep_delegations-Round n v (drop c.val_del_index ds) c s
                            (omega (arith, few a s.ext ds p.1, length-drop c.val_del_index ds)) le
                            i))))))

  sweep_validator-Round :
      (vals : List Validator) (c : Cursor) (s : State X)
      → c.swept ≤ bound
      → c.val_index < length vals
      → After
          (Round bound (length vals) c s)
          (Within bound c s)
          (sweep_validator env min_amount bound vals c s)
  unfolding sweep_validator
  sweep_validator-Round vals c s le i =
      After-bind (outcome (at_index vals c.val_index)) (visit env min_amount bound (length vals) c)
        s (After-outcome _ s (omega arith))
        (λ v t p.
          subst
            (λ u.
              After (Round bound (length vals) c s) (Within bound c s)
                (visit env min_amount bound (length vals) c v u))
            (sym p.0) (visit-Round (length vals) v c s le i))

  pub sweep_loop-After :
      (vals : List Validator) (k : ℕ) (c : Cursor) (s : State X)
      → c.swept ≤ bound
      → c.val_index < length vals
      → After
          (λ c' t. (c'.val_index < length vals) × Within bound c s t)
          (Within bound c s)
          (sweep_loop env min_amount bound vals k c s)
  unfolding sweep_loop
  sweep_loop-After vals zero c s le i = record { holds = (i, omega arith) }
  sweep_loop-After vals (suc k) c s le i =
      After-bind (sweep_validator env min_amount bound vals c)
        (λ p. if p.0 then pure p.1 else sweep_loop env min_amount bound vals k p.1) s
        (sweep_validator-Round vals c s le i)
        λ p t r.
          After-if p.0 (pure p.1) (sweep_loop env min_amount bound vals k p.1) t
            (λ _. record { holds = (r.in_range, r.within) })
            (λ e.
              After-weaken (sweep_loop-After vals k p.1 t (r.counted e).0 r.in_range)
                (λ c' u h. (h.0, omega (arith, h.1, r.counted e)))
                (λ u h. omega (arith, h, r.counted e)))
