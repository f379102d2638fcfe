-- ===== src/Staking/Block/Singularity.antt =====
-- What the end of a block does before the singularity.
use story.Base.{ℕ, ◌<◌, ◌≡◌, ◌^◌, ap, true, ◌&&◌, ltb, [], arith}
use story.Action.{ok}
use story.Staking.External.{Env}
use story.Staking.State.{State}
use story.Staking.Handlers.{is_singularity}
use story.Staking.Block.{end_block}

singular :
    {X : Type 0} (env : Env X) (s : State X) (height : ℕ)
    → env.singularity_height s.ext ≡ ok height
    → height < 2 ^ 63
    → env.block_height < height
    → is_singularity env s ≡ (ok true, s)
unfolding is_singularity
singular env s height e small below =
    let early : (ltb height (2 ^ 63) && ltb env.block_height height) ≡ true = ground arith in
    rw (e, early)

-- At a block below the singularity's height, the end of the block changes no validator and no state:
-- the staking module's own end of the block is not called, and nothing is queued.
pub end_block-before_singularity :
    {X : Type 0} (env : Env X) (s : State X) (height : ℕ)
    → env.singularity_height s.ext ≡ ok height
    → height < 2 ^ 63
    → env.block_height < height
    → end_block env s ≡ (ok [], s)
unfolding end_block is_singularity
end_block-before_singularity env s height e small below =
    let is : is_singularity env s ≡ (ok true, s) = singular env s height e small below in
    rw (ap (λ p. p.0) is, ap (λ p. p.1) is)
