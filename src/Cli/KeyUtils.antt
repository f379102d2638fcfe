-- ===== src/Cli/KeyUtils.antt =====
-- client/cmd/key_utils.go: the conversions of keys on the command line.
use story.Base.{ℕ, not, ◌||◌, List, [], length, take, drop, ◌==◌, if◌then◌else◌}
use story.Action.{Outcome, ok, err, panic}
use story.Engine.Convert.{set_bytes}
use story.Keys.{Curve, starts_with}

module _ {K : Type 0} (curve : Curve K) where
  unfoldable pub priv_key_to_cmp_pub_key : List ℕ → Outcome (List ℕ)
  priv_key_to_cmp_pub_key bz = elim (curve.to_ecdsa bz) [
    | err e ↦ err e
    | panic ↦ panic
    | ok key ↦ ok (curve.compress_pubkey (curve.public_key key))
  ]

  unfoldable pub cmp_pub_key_to_uncmp_pub_key : List ℕ → Outcome (List ℕ)
  cmp_pub_key_to_uncmp_pub_key key =
      if not (length key == 33) then err [] else elim (curve.parse_pub_key key) [
        | err e ↦ err e
        | panic ↦ panic
        | ok p ↦ ok (curve.serialize_uncompressed p)
      ]

  -- Without a check that the point is on the curve.
  unfoldable pub uncmp_pub_key_to_cmp_pub_key : List ℕ → Outcome (List ℕ)
  uncmp_pub_key_to_cmp_pub_key key =
      if not (length key == 65) || not (starts_with 4 key)
      then err []
      else ok
          (curve.compress_pubkey (set_bytes 0 (take 32 (drop 1 key)), set_bytes 0 (drop 33 key)))
