-- ===== src/Tests/Keys.antt =====
-- The theorems on keys at a curve of one point, whose coordinates are both 0.
use story.Base.{
  ℕ, zero, suc, ◌+◌, ◌*◌, ◌≡◌, refl, ap, ◌∙◌, true, ◌&&◌, inr, List, [], ◌∷◌, length, ◌==◌, arith,
}
use story.Action.{ok, err}
use story.Engine.Convert.{set_bytes}
use story.Keys.{Curve, sign, verify_sig, uncmp_pub_key_to_cmp_pub_key, cmp_pub_key_to_uncmp_pub_key}
use story.Keys.RoundTrip.{AllBytes, Coordinates, Sec1, cmp_pub_key-uncmp_pub_key}
use story.Keys.Signed.{Compact, verify_sig-sign}

abbrev zeros : ℕ → List ℕ
zeros zero = []
zeros (suc n) = 0 ∷ zeros n

-- A private key is a number, of which nothing depends.
abbrev pub curve : Curve ℕ
curve = record {
  is_on_curve = λ x y. (x == 0) && (y == 0);
  parse_pub_key = λ _. ok (0, 0);
  serialize_uncompressed = λ _. 4 ∷ zeros 64;
  decompress_pubkey = λ _. ok (0, 0);
  compress_pubkey = λ _. 2 ∷ zeros 32;
  unmarshal_pubkey = λ _. ok (0, 0);
  from_ecdsa_pub = λ _. 4 ∷ zeros 64;
  pubkey_to_address = λ _. 7;
  to_ecdsa = λ _. ok 1;
  from_ecdsa = λ _. zeros 32;
  public_key = λ _. (0, 0);
  sign_compact = λ _ _. 28 ∷ zeros 64;
  sig_to_pub = λ _ _. ok (0, 0);
  decode_hex = λ _. err [];
  acc_text = λ _. "";
  val_text = λ _. "";
}

is_zeros : (acc : ℕ) (bs : List ℕ) → set_bytes acc bs ≡ 0 → (acc ≡ 0) × (bs ≡ zeros (length bs))
is_zeros acc [] h = (h, refl)
is_zeros acc (b ∷ bs) h =
    let (first, rest) = is_zeros (acc * 256 + b) bs h in
    let none : b ≡ 0 = omega arith in (omega arith, λ i. none i ∷ rest i)

zeros_of : (x y : List ℕ) → Coordinates curve x y → (x ≡ zeros 32) × (y ≡ zeros 32)
zeros_of x y c =
    let on = c.on_curve in
    let first : set_bytes 0 x ≡ 0 = ground arith in
    let second : set_bytes 0 y ≡ 0 = ground arith in
    ((is_zeros 0 x first).1 ∙ ap zeros c.x_length, (is_zeros 0 y second).1 ∙ ap zeros c.y_length)

sec1 : Sec1 curve
sec1 = record {
  parses = λ x y c. let (ex, ey) = zeros_of x y c in rw (ex, ey) refl;
  serializes = λ x y c. let (ex, ey) = zeros_of x y c in rw (ex, ey) refl;
  compresses = λ x y c. let (ex, ey) = zeros_of x y c in rw (ex, ey) refl;
}

all_zeros : (n : ℕ) → AllBytes (zeros n)
all_zeros zero = tt
all_zeros (suc n) = (omega arith, all_zeros n)

cmp_pub_key-uncmp_pub_key_example :
    cmp_pub_key_to_uncmp_pub_key curve (2 ∷ zeros 32) ≡ ok (4 ∷ zeros 64)
unfolding uncmp_pub_key_to_cmp_pub_key
cmp_pub_key-uncmp_pub_key_example =
    cmp_pub_key-uncmp_pub_key curve sec1 (4 ∷ zeros 64) (2 ∷ zeros 32) (omega arith, all_zeros 64)
      (omega arith, omega arith) refl

compact : Compact curve (zeros 32) 1 (zeros 32)
compact = record {
  id = 1;
  rs = zeros 64;
  low = inr refl;
  rs_length = refl;
  signed = refl;
  recovers = refl;
}

verify_sig-sign_example :
    (sig : List ℕ) × (sign curve (zeros 32) (zeros 32) ≡ ok sig)
    × (verify_sig curve 7 (zeros 32) sig ≡ ok true)
verify_sig-sign_example = verify_sig-sign curve (zeros 32) 1 (zeros 32) refl compact
