-- ===== src/App/Votes.antt =====
-- client/app/prouter.go: the votes of the last commit, and the test for a quorum.
use native.Mathlib.Nat.{zero-add}
use story.Base.{
  ℕ, ◌+◌, ◌*◌, ◌%◌, ◌≤◌, ◌<◌, ◌^◌, ◌≡◌, ◌∙◌, u64_mod, ◌↔◌, Bool, true, not, List, [], ◌∷◌,
  add_int64, mul_int64, quo_int64, le_int64, if◌then◌else◌, arith,
}

-- `BlockIDFlag` of CometBFT
pub data BlockIdFlag : Type 0 where
  unknown : BlockIdFlag
  absent : BlockIdFlag
  commit : BlockIdFlag
  nil : BlockIdFlag

-- A power is an `int64`.
pub record Vote : Type 0 where
  pub power : ℕ
  pub block_id_flag : BlockIdFlag

abbrev pub is_commit : BlockIdFlag → Bool
is_commit commit = true
is_commit _ = Bool.false

-- The loop over the votes, from the powers so far.
unfoldable pub tally : ℕ → ℕ → List Vote → ℕ × ℕ
tally total voted [] = (total, voted)
tally total voted (v ∷ vs) =
    tally (add_int64 total v.power)
      (if is_commit v.block_id_flag then add_int64 voted v.power else voted) vs

unfoldable pub has_quorum : List Vote → Bool
unfolding tally
has_quorum vs =
    let (total, voted) = tally 0 0 vs in not (le_int64 voted (quo_int64 (mul_int64 total 2) 3))

-- The powers without a machine's bounds
abbrev pub total_power : List Vote → ℕ
total_power [] = 0
total_power (v ∷ vs) = v.power + total_power vs

abbrev pub committed_power : List Vote → ℕ
committed_power [] = 0
committed_power (v ∷ vs) = (if is_commit v.block_id_flag then v.power else 0) + committed_power vs

committed_power-le : (vs : List Vote) → committed_power vs ≤ total_power vs
committed_power-le [] = omega arith
committed_power-le (v ∷ vs) = ground (arith, committed_power-le vs)

-- Nothing wraps while the sums stay below the machine's bound.
tally_lem :
    (vs : List Vote) (total voted : ℕ)
    → total + total_power vs < 2 ^ 62
    → voted + committed_power vs < 2 ^ 62
    → tally total voted vs ≡ (total + total_power vs, voted + committed_power vs)
unfolding tally add_int64
tally_lem [] total voted h k = ground arith
tally_lem (v ∷ vs) total voted h k =
    let more : ℕ = if is_commit v.block_id_flag then v.power else 0 in
    let all : (total + v.power) % u64_mod ≡ total + v.power = omega arith in
    let some_of : (if is_commit v.block_id_flag then (voted + v.power) % u64_mod else voted)
        ≡ voted + more =
      ground arith in
    rw (all, some_of)
      (tally_lem vs (total + v.power) (voted + more) (omega arith) (ground arith) ∙ ground arith)

two_thirds :
    (total voted : ℕ)
    → total < 2 ^ 62
    → voted ≤ total
    → (not (le_int64 voted (quo_int64 (mul_int64 total 2) 3)) ≡ true) ↔ (2 * total < 3 * voted)
unfolding le_int64 quo_int64 mul_int64
two_thirds total voted h k = ground arith

-- With a total power below 2^62, the votes have a quorum exactly when the power that committed is
-- more than two thirds of the total.
pub has_quorum_iff :
    (vs : List Vote)
    → total_power vs < 2 ^ 62
    → (has_quorum vs ≡ true) ↔ (2 * total_power vs < 3 * committed_power vs)
unfolding has_quorum
has_quorum_iff vs h =
    let less : committed_power vs ≤ total_power vs = committed_power-le vs in
    rw
      (
        tally_lem vs 0 0 (omega arith) (omega arith),
        zero-add (total_power vs),
        zero-add (committed_power vs),
      )
      (two_thirds (total_power vs) (committed_power vs) h less)
