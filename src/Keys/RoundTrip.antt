-- ===== src/Keys/RoundTrip.antt =====
-- Keys that are converted and read back.
use story.Base.{
  ℕ, zero, suc, ◌<◌, ◌-◌, ◌^◌, ◌%◌, ◌≡◌, refl, sym, subst, ap, true, List, [], ◌∷◌, ◌++◌, length,
  take, drop, ◌==◌, if◌then◌else◌, arith, length-take, length-drop,
}
use story.Action.{ok}
use story.Engine.Convert.{set_bytes}
use story.Cli.KeyUtils
use story.Keys.{
  Curve, Point, last, uncmp_pub_key_to_cmp_pub_key, cmp_pub_key_to_uncmp_pub_key,
  pub_key_to_bytes_64, pub_key_from_bytes_64,
}

-- The parity byte of a compressed key
abbrev pub parity : List ℕ → ℕ
parity y = if last y % 2 == 0 then 2 else 3

abbrev pub AllBytes : List ℕ → Type 0
AllBytes [] = Unit {0}
AllBytes (b ∷ bs) = (b < 256) × AllBytes bs

-- The size of the field of secp256k1
abbrev pub field_size : ℕ
field_size = 2 ^ 256 - 2 ^ 32 - 977

-- The 32 bytes of each coordinate of an uncompressed key spell an element of the field.
abbrev pub InField : List ℕ → Type 0
InField key =
    (set_bytes 0 (take 32 (drop 1 key)) < field_size) × (set_bytes 0 (drop 33 key) < field_size)

-- The two coordinates of a point of the curve, elements of the field, as 32 bytes each
pub record Coordinates {K : Type 0} (curve : Curve K) (x y : List ℕ) : Type 0 where
  pub x_length : length x ≡ 32
  pub y_length : length y ≡ 32
  pub x_bytes : AllBytes x
  pub y_bytes : AllBytes y
  pub x_field : set_bytes 0 x < field_size
  pub y_field : set_bytes 0 y < field_size
  pub on_curve : curve.is_on_curve (set_bytes 0 x) (set_bytes 0 y) ≡ true

-- What SEC 1 documents of the two formats of a point.
pub record Sec1 {K : Type 0} (curve : Curve K) : Type 0 where
  pub parses :
      (x y : List ℕ)
      → Coordinates curve x y
      → curve.parse_pub_key (parity y ∷ x) ≡ ok (set_bytes 0 x, set_bytes 0 y)
  pub serializes :
      (x y : List ℕ)
      → Coordinates curve x y
      → curve.serialize_uncompressed (set_bytes 0 x, set_bytes 0 y) ≡ 4 ∷ x ++ y
  pub compresses :
      (x y : List ℕ)
      → Coordinates curve x y
      → curve.compress_pubkey (set_bytes 0 x, set_bytes 0 y) ≡ parity y ∷ x

AllBytes-take : (n : ℕ) (bs : List ℕ) → AllBytes bs → AllBytes (take n bs)
AllBytes-take zero bs h = tt
AllBytes-take (suc n) [] h = tt
AllBytes-take (suc n) (b ∷ bs) h = (h.0, AllBytes-take n bs h.1)

AllBytes-drop : (n : ℕ) (bs : List ℕ) → AllBytes bs → AllBytes (drop n bs)
AllBytes-drop zero bs h = h
AllBytes-drop (suc n) [] h = tt
AllBytes-drop (suc n) (b ∷ bs) h = AllBytes-drop n bs h.1

take-append-drop : {A : Type 0} (n : ℕ) (xs : List A) → take n xs ++ drop n xs ≡ xs
take-append-drop zero xs = refl
take-append-drop (suc n) [] = refl
take-append-drop (suc n) (x ∷ xs) = ap (◌∷◌ x) (take-append-drop n xs)

module _ {K : Type 0} (curve : Curve K) (sec1 : Sec1 curve) where
  -- A key that `UncmpPubKeyToCmpPubKey` converts: 65 bytes, the first of them 4, of a point of the
  -- curve.
  record Uncompressed (key cmp : List ℕ) : Type 0 where
    x : List ℕ
    y : List ℕ
    key_eq : key ≡ 4 ∷ x ++ y
    point : Coordinates curve x y
    cmp_eq : cmp ≡ parity y ∷ x

  uncmp_inv :
      (key cmp : List ℕ)
      → AllBytes key
      → InField key
      → uncmp_pub_key_to_cmp_pub_key curve key ≡ ok cmp
      → Uncompressed key cmp
  unfolding uncmp_pub_key_to_cmp_pub_key
  uncmp_inv [] cmp bytes field h = ground arith
  uncmp_inv (b ∷ rest) cmp bytes field h =
      let long : length rest ≡ 64 = ground arith in
      let first : b ≡ 4 = ground arith in
      record {
        x = take 32 rest;
        y = drop 32 rest;
        key_eq = rw first (ap (◌∷◌ 4) (sym (take-append-drop 32 rest)));
        point = record {
          x_length = omega (arith, length-take 32 rest);
          y_length = omega (arith, length-drop 32 rest);
          x_bytes = AllBytes-take 32 rest bytes.1;
          y_bytes = AllBytes-drop 32 rest bytes.1;
          x_field = field.0;
          y_field = field.1;
          on_curve = ground arith;
        };
        cmp_eq = ground arith;
      }

  -- A key, of bytes whose two coordinates are elements of the field, that the keeper compresses is the
  -- key that it reads from the compressed one, over the formats of SEC 1.
  pub cmp_pub_key-uncmp_pub_key :
      (key cmp : List ℕ)
      → AllBytes key
      → InField key
      → uncmp_pub_key_to_cmp_pub_key curve key ≡ ok cmp
      → cmp_pub_key_to_uncmp_pub_key curve cmp ≡ ok key
  unfolding cmp_pub_key_to_uncmp_pub_key
  cmp_pub_key-uncmp_pub_key key cmp bytes field h =
      let u = uncmp_inv key cmp bytes field h in
      let long : (length (parity u.y ∷ u.x) == 33) ≡ true =
        let e = u.point.x_length in ground arith in
      rw (u.cmp_eq, long, sec1.parses u.x u.y u.point, sec1.serializes u.x u.y u.point, u.key_eq)
        refl

  -- The command line, which does not check that a key is of the curve, compresses a key of the curve,
  -- whose coordinates are elements of the field, to the bytes that the keeper compresses it to.
  pub uncmp_pub_key_agree :
      (key cmp : List ℕ)
      → AllBytes key
      → InField key
      → uncmp_pub_key_to_cmp_pub_key curve key ≡ ok cmp
      → KeyUtils.uncmp_pub_key_to_cmp_pub_key curve key ≡ ok cmp
  unfolding uncmp_pub_key_to_cmp_pub_key KeyUtils.uncmp_pub_key_to_cmp_pub_key
  uncmp_pub_key_agree [] cmp bytes field h = ground arith
  uncmp_pub_key_agree (b ∷ rest) cmp bytes field h =
      let long : length rest ≡ 64 = ground arith in
      let same = sec1.compresses (take 32 rest) (drop 32 rest) (record {
        x_length = omega (arith, length-take 32 rest);
        y_length = omega (arith, length-drop 32 rest);
        x_bytes = AllBytes-take 32 rest bytes.1;
        y_bytes = AllBytes-drop 32 rest bytes.1;
        x_field = field.0;
        y_field = field.1;
        on_curve = ground arith;
      }) in
      rw same (ground arith)

  -- A public key of geth is the one that is read from its 64 bytes, and is left by geth's own format.
  pub pub_key_from_bytes_64-pub_key_to_bytes_64 :
      (p : Point)
      → ((bz : List ℕ) × (curve.from_ecdsa_pub p ≡ 4 ∷ bz) × (length bz ≡ 64))
      → curve.unmarshal_pubkey (curve.from_ecdsa_pub p) ≡ ok p
      → pub_key_from_bytes_64 curve (pub_key_to_bytes_64 curve p) ≡ ok p
  unfolding pub_key_to_bytes_64 pub_key_from_bytes_64
  pub_key_from_bytes_64-pub_key_to_bytes_64 p (bz, e, long) h =
      let short : (length bz == 64) ≡ true = ground arith in
      let back : curve.unmarshal_pubkey (4 ∷ bz) ≡ ok p =
        subst (λ k. curve.unmarshal_pubkey k ≡ ok p) e h in
      rw (e, short) back
