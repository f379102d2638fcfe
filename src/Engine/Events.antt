-- ===== src/Engine/Events.antt =====
-- client/x/evmengine/keeper/evmmsgs.go: the logs of a block's hash, as the execution client has them,
-- and proposal_server.go, `evmEventsEqual`.
use story.Base.{ℕ, Bool, not, Option, none, some, List, [], ◌∷◌, map, length, ◌==◌, if◌then◌else◌}
use story.Errors.{Error}
use story.Action.{Outcome, ok, err, panic, Action, Done}
use story.Evm.{EvmEvent, verify}
use story.Engine.State.{Env, State, Log, call}
use story.Engine.Retry.{Run, once, retry_forever, ◌>>=◌}

abbrev pub event_of_log : Log → EvmEvent
event_of_log l = record {
  address = some l.address;
  topics = l.topics;
  log_data = l.log_data;
  tx_hash = some l.tx_hash;
}

abbrev pub verify_all : List EvmEvent → Outcome (List EvmEvent)
verify_all [] = ok []
verify_all (e ∷ es) =
    let rest = verify_all es in
    elim (verify e) [
      | ok _ ↦ elim rest [ ok vs ↦ ok (e ∷ vs) | err x ↦ err x | panic ↦ panic ]
      | err x ↦ err x
      | panic ↦ panic
    ]

-- An error of the network asks for another attempt.
abbrev pub retry_error : {S A : Type 0} → Action S A → Action S (Option A)
retry_error m s =
    let (r, t) = m s in (elim r [ ok a ↦ ok (some a) | err e ↦ ok none | panic ↦ panic ], t)

module _ {X : Type 0} (env : Env X) where
  abbrev pub canceled : State X → Option Error
  canceled s = env.engine_cl.ctx_err s.staking.ext

  unfoldable pub evm_events : ℕ → ℕ → Run (State X) (List EvmEvent)
  evm_events fuel block_hash =
      retry_forever canceled (retry_error (call (env.engine_cl.filter_logs block_hash))) fuel
      >>= (λ logs. once (λ s. (verify_all (map event_of_log logs), s)))

-- The loop over the indices of `a`
abbrev pub each_equal : (EvmEvent → EvmEvent → Bool) → List EvmEvent → List EvmEvent → Outcome Done
each_equal equal [] bs = ok tt
each_equal equal (a ∷ as_) [] = panic
each_equal equal (a ∷ as_) (b ∷ bs) =
    let rest = each_equal equal as_ bs in if equal a b then rest else err []

unfoldable pub evm_events_equal :
    (EvmEvent → EvmEvent → Bool) → List EvmEvent → List EvmEvent → Outcome Done
evm_events_equal equal a b = if not (length a == length b) then err [] else each_equal equal a b
