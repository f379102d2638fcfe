-- ===== src/Staking/Params/Valid.antt =====
-- Which parameters pass the validation.
use story.Base.{◌≤◌, ◌<◌, ◌≡◌, ◌↔◌, arith}
use story.Action.{ok}
use story.Staking.Types.{Params}
use story.Staking.Params.{validate}

-- Parameters are valid exactly when the withdrawals of a block are at least one, the sweep is no
-- smaller than them, and the minimal amount is positive.
pub validate_iff :
    (p : Params)
    → (validate p ≡ ok tt) ↔ (
        (0 < p.max_withdrawal_per_block)
        × (p.max_withdrawal_per_block ≤ p.max_sweep_per_block)
        × (0 < p.min_partial_withdrawal_amount))
unfolding validate
validate_iff p = ((λ h. ground arith), (λ h. ground arith))
