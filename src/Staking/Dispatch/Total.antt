-- ===== src/Staking/Dispatch/Total.antt =====
-- Calls that never panic, and calls that always succeed.
use story.Base.{ℕ, ◌≡◌, ◌≢◌, refl, ap, ◌∙◌, Bool, true, false, List, ◌∷◌, if◌then◌else◌, arith}
use story.Action.{Outcome, ok, err, panic, Action, Done, pure, outcome, ◌>>=◌, ◌>>◌}
use story.Action.Laws.{bind_ok}
use story.Evm.{EvmEvent, EthLog, verify, to_eth_log}
use story.Evm.Verified.{to_eth_log-verify}
use story.Staking.Dispatch.{skip_failure}

pub record NoPanic {S A : Type 0} (m : Action S A) : Type 0 where
  pub never : (s : S) → (m s).0 ≢ panic

pub record Total {S : Type 0} (m : Action S Done) : Type 0 where
  pub total : (s : S) → (m s).0 ≡ ok tt

-- A parser that returns, and then a handler that does not panic
pub NoPanic-parse :
    {S E : Type 0} (r : Outcome E) (handler : E → Action S Done)
    → r ≢ panic
    → ((e : E) → NoPanic (handler e))
    → NoPanic (outcome r >>= handler)
NoPanic-parse (ok e) handler n k = record { never = λ s. (k e).never s }
NoPanic-parse (err x) handler n k = record { never = λ s h. ground arith }
NoPanic-parse panic handler n k = absurd (n refl)

skip :
    (r : Outcome Done)
    → r ≢ panic
    → ◌≡◌ {A = Outcome Done} (elim r [ panic ↦ panic | _ ↦ ok tt ]) (ok tt)
skip (ok d) n = refl
skip (err x) n = refl
skip panic n = absurd (n refl)

module _ {S : Type 0} where
  pub Total-skip_failure : (m : Action S Done) → NoPanic m → Total (skip_failure m)
  Total-skip_failure m n = record { total = λ s. skip (m s).0 (n.never s) }

  pub Total-pure : Total {S = S} (pure tt)
  Total-pure = record { total = λ s. refl }

  pub Total-if : (b : Bool) (m n : Action S Done) → Total m → Total n → Total (if b then m else n)
  Total-if true m n k l = k
  Total-if false m n k l = l

  pub Total-then : (m n : Action S Done) → Total m → Total n → Total (m >> n)
  Total-then m n k l = record {
    total = λ s.
        ap (λ p. p.0) (bind_ok m (λ _. n) s (m s).1 tt (λ i. (k.total s i, (m s).1)))
        ∙ l.total (m s).1;
  }

-- One case of a switch: a topic, a parser and a handler
pub Total-case :
    {S E : Type 0} (b : Bool) (r : Outcome E) (handler : E → Action S Done) (others : Action S Done)
    → r ≢ panic
    → ((e : E) → NoPanic (handler e))
    → Total others
    → Total (if b then skip_failure (outcome r >>= handler) else others)
Total-case b r handler others n k l =
    Total-if b (skip_failure (outcome r >>= handler)) others
      (Total-skip_failure (outcome r >>= handler) (NoPanic-parse r handler n k)) l

-- One round of a loop over logs: a verified log is converted, and has a first topic.
pub Total-log :
    {S : Type 0} (bytes_to_hash : List ℕ → ℕ) (l : EvmEvent) (act : EthLog → Action S Done)
    (rest : Action S Done)
    → verify l ≡ ok tt
    → ((log : EthLog) (t : ℕ) (ts : List ℕ) → log.topics ≡ t ∷ ts → Total (act log))
    → Total rest
    → Total
        (outcome (verify l) >> (outcome (to_eth_log bytes_to_hash l) >>= λ log. act log >> rest))
Total-log {S} bytes_to_hash l act rest e k r =
    let (log, t, ts, converted, topics) = to_eth_log-verify bytes_to_hash l e in
    let convert : Action S Done = outcome (to_eth_log bytes_to_hash l) >>= λ log. act log >> rest in
    record {
      total = λ s.
          ap (λ p. p.0)
            (bind_ok (outcome (verify l)) (λ _. convert) s s tt (λ i. (e i, s))
              ∙ bind_ok (outcome (to_eth_log bytes_to_hash l)) (λ log. act log >> rest) s s log
                  (λ i. (converted i, s)))
          ∙ (Total-then (act log) rest (k log t ts topics) r).total s;
    }
