-- ===== src/Keys.antt =====
-- client/x/evmstaking/keeper/keys.go, lib/k1util/k1util.go and lib/cast/cast.go:
-- the formats of secp256k1 keys and signatures. A key or a signature is the list of its bytes; the
-- curve, the signatures and the hashes of addresses are those of geth and decred, and not
-- implemented here.
pub mod RoundTrip
pub mod Signed
use story.Base.{
  ℕ, ◌+◌, ◌-◌, ◌%◌, Bool, false, not, ◌||◌, ◌&&◌, String, List, [], ◌∷◌, ◌++◌, length, take, drop,
  Option, none, some, get_elem?, ◌==◌, if◌then◌else◌,
}
use story.Action.{Outcome, ok, err, panic}
use story.Engine.Convert.{set_bytes}

-- A point of the curve, by its coordinates
abbrev pub Point : Type 0
Point = ℕ × ℕ

pub record Curve (K : Type 0) : Type 0 where
  pub is_on_curve : ℕ → ℕ → Bool
  -- `ParsePubKey` and `SerializeUncompressed` of decred
  pub parse_pub_key : List ℕ → Outcome Point
  pub serialize_uncompressed : Point → List ℕ
  -- `DecompressPubkey`, `CompressPubkey`, `UnmarshalPubkey`, `FromECDSAPub` and `PubkeyToAddress` of geth
  pub decompress_pubkey : List ℕ → Outcome Point
  pub compress_pubkey : Point → List ℕ
  pub unmarshal_pubkey : List ℕ → Outcome Point
  pub from_ecdsa_pub : Point → List ℕ
  pub pubkey_to_address : Point → ℕ
  -- `ToECDSA`, `FromECDSA` and the public key of a private one
  pub to_ecdsa : List ℕ → Outcome K
  pub from_ecdsa : K → List ℕ
  pub public_key : K → Point
  -- `SignCompact` by the bytes of a key, and `SigToPub`
  pub sign_compact : List ℕ → List ℕ → List ℕ
  pub sig_to_pub : List ℕ → List ℕ → Outcome Point
  -- `hex.DecodeString` after the first `0x` is taken away
  pub decode_hex : String → Outcome (List ℕ)
  -- the bech32 texts of the address of a public key of Cosmos
  pub acc_text : List ℕ → String
  pub val_text : List ℕ → String

-- lib/cast: a slice as an array
module _ {A : Type 0} where
  abbrev pub array_of : ℕ → List A → Outcome (List A)
  array_of n xs = if length xs == n then ok xs else err []

  unfoldable pub array_65 : List A → Outcome (List A)
  array_65 = array_of 65

  unfoldable pub array_32 : List A → Outcome (List A)
  array_32 = array_of 32

  unfoldable pub array_20 : List A → Outcome (List A)
  array_20 = array_of 20

  unfoldable pub array_8 : List A → Outcome (List A)
  array_8 = array_of 8

  -- An error of the cast is a panic.
  abbrev pub or_panic : Outcome (List A) → Outcome (List A)
  or_panic (ok xs) = ok xs
  or_panic _ = panic

  unfoldable pub must_32 : List A → Outcome (List A)
  must_32 xs = or_panic (array_32 xs)

  unfoldable pub must_20 : List A → Outcome (List A)
  must_20 xs = or_panic (array_20 xs)

unfoldable pub eth_address : List ℕ → Outcome (List ℕ)
eth_address b = elim (array_20 b) [ ok a ↦ ok a | err e ↦ err [] | panic ↦ panic ]

-- The last byte of a list that is not empty
abbrev pub last : List ℕ → ℕ
last [] = 0
last (b ∷ []) = b
last (b ∷ c ∷ bs) = last (c ∷ bs)

-- The first byte
abbrev pub starts_with : ℕ → List ℕ → Bool
starts_with b bs = elim (get_elem? bs 0) [ none ↦ false | some c ↦ c == b ]

module _ {K : Type 0} (curve : Curve K) where
  -- keys.go of the keeper
  unfoldable pub uncmp_pub_key_to_cmp_pub_key : List ℕ → Outcome (List ℕ)
  uncmp_pub_key_to_cmp_pub_key key =
      let x = take 32 (drop 1 key) in
      let y = drop 33 key in
      if not (length key == 65) || not (starts_with 4 key)
      then err []
      else if not (curve.is_on_curve (set_bytes 0 x) (set_bytes 0 y))
      then err []
      else ok ((if last y % 2 == 0 then 2 else 3) ∷ x)

  unfoldable pub cmp_pub_key_to_uncmp_pub_key : List ℕ → Outcome (List ℕ)
  cmp_pub_key_to_uncmp_pub_key key =
      if not (length key == 33) then err [] else elim (curve.parse_pub_key key) [
        | err e ↦ err e
        | panic ↦ panic
        | ok p ↦ ok (curve.serialize_uncompressed p)
      ]

  -- The address of a key of geth
  abbrev pub address_of : Outcome Point → Outcome ℕ
  address_of (ok p) = ok (curve.pubkey_to_address p)
  address_of (err e) = err e
  address_of panic = panic

  unfoldable pub cmp_pub_key_to_evm_address : List ℕ → Outcome ℕ
  cmp_pub_key_to_evm_address key =
      if not (length key == 33) then err [] else address_of (curve.decompress_pubkey key)

  -- k1util.go: keys
  unfoldable pub pub_key_to_address : List ℕ → Outcome ℕ
  pub_key_to_address key =
      if not (length key == 33) then err [] else address_of (curve.decompress_pubkey key)

  -- `PubKeyPBToAddress`, on the bytes of the message's key
  unfoldable pub pub_key_pb_to_address : List ℕ → Outcome ℕ
  pub_key_pb_to_address key =
      if not (length key == 33) then err [] else address_of (curve.decompress_pubkey key)

  unfoldable pub cosmos_pubkey_to_evm_address : List ℕ → Outcome ℕ
  cosmos_pubkey_to_evm_address key = address_of (curve.decompress_pubkey key)

  unfoldable pub std_priv_key_to_comet : K → Outcome (List ℕ)
  std_priv_key_to_comet key =
      let bz = curve.from_ecdsa key in if not (length bz == 32) then err [] else ok bz

  unfoldable pub std_priv_key_from_comet : List ℕ → Outcome K
  std_priv_key_from_comet bz = if not (length bz == 32) then err [] else curve.to_ecdsa bz

  unfoldable pub pub_key_to_bytes_64 : Point → List ℕ
  pub_key_to_bytes_64 p = drop 1 (curve.from_ecdsa_pub p)

  unfoldable pub pub_key_from_bytes_64 : List ℕ → Outcome Point
  pub_key_from_bytes_64 bz =
      if not (length bz == 64) then err [] else curve.unmarshal_pubkey (4 ∷ bz)

  unfoldable pub decode_pub_key_from_hex : String → Outcome (List ℕ)
  decode_pub_key_from_hex text = elim (curve.decode_hex text) [
    | err e ↦ err e
    | panic ↦ panic
    | ok key ↦ if not (length key == 33) then err [] else ok key
  ]

  abbrev pub text_of : (List ℕ → String) → Outcome (List ℕ) → Outcome String
  text_of f (ok key) = ok (f key)
  text_of f (err e) = err e
  text_of f panic = panic

  unfoldable pub cmp_pub_key_to_delegator_address : String → Outcome String
  cmp_pub_key_to_delegator_address text = text_of curve.acc_text (decode_pub_key_from_hex text)

  unfoldable pub cmp_pub_key_to_validator_address : String → Outcome String
  cmp_pub_key_to_validator_address text = text_of curve.val_text (decode_pub_key_from_hex text)

  -- k1util.go: signatures of the form R, S, V
  unfoldable pub sign : List ℕ → List ℕ → Outcome (List ℕ)
  sign key input =
      if not (length key == 32)
      then err []
      else let sig = curve.sign_compact key input in array_65 (drop 1 sig ++ take 1 sig)

  -- An index past the end would be a panic; the signature is an array of 65 bytes.
  unfoldable pub verify_sig : ℕ → List ℕ → List ℕ → Outcome Bool
  verify_sig address hash sig = elim (get_elem? sig 64) [
    | none ↦ panic
    | some v ↦
        if not (v == 27) && not (v == 28)
        then err []
        else elim (curve.sig_to_pub hash (take 64 sig ++ (v - 27) ∷ [])) [
          | err e ↦ err e
          | panic ↦ panic
          | ok p ↦ ok (curve.pubkey_to_address p == address)
        ]
  ]
