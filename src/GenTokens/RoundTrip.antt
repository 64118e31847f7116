-- ===== src/GenTokens/RoundTrip.antt =====
-- The server reads the key set of load/gentokens/main.go as the key that it was made of.
use ulsync_server.Prelude.{
  ℕ, zero, suc, ◌+◌, ◌*◌, ◌/◌, ◌%◌, ◌<◌, ◌≡◌, refl, ap, Bool, true, false, some, List, [], ◌∷◌,
  ◌++◌, str_eq, ltb, ◌==◌, length, length-append, All, All-append, ltb→lt, ◌&&◌, arith, ok,
}
use ulsync_server.HttpApi.Base64.{
  to_char, encode, decode-encode, is_break, Plain, strip-Plain, IsByte,
}
use ulsync_server.Auth.Jwks.{
  ecdsa, standard_char, standard, has_padding, padding, decode_raw, decode_base64_url, set_bytes,
  is_on_curve, p256, p256_b, ecdsa_of, ecdsa_of_bytes, ecdsa_p256, ecdsa_public_key,
  public_key_from_jwk,
}
use ulsync_server.GenTokens.{load_key_id, fill_bytes, url_char, raw_encode, ec_jwk}

standard_char-url_char : (v : ℕ) → standard_char (url_char v) ≡ to_char v
unfolding to_char url_char
standard_char-url_char v = ground arith

no_padding : (v : ℕ) → (url_char v == b'=') ≡ false
unfolding url_char
no_padding v = ground arith

no_break : (v : ℕ) → is_break (url_char v) ≡ false
unfolding url_char is_break
no_break v = ground arith

has_padding-raw_encode : (bs : List ℕ) → has_padding (raw_encode bs) ≡ false
unfolding raw_encode
has_padding-raw_encode [] = refl
has_padding-raw_encode (a ∷ []) = rw (no_padding (a / 4), no_padding (a % 4 * 16)) refl
has_padding-raw_encode (a ∷ b ∷ []) =
    rw (no_padding (a / 4), no_padding (a % 4 * 16 + b / 16), no_padding (b % 16 * 4)) refl
has_padding-raw_encode (a ∷ b ∷ c ∷ rest) =
    rw
      (
        no_padding (a / 4),
        no_padding (a % 4 * 16 + b / 16),
        no_padding (b % 16 * 4 + c / 64),
        no_padding (c % 64),
      )
      (has_padding-raw_encode rest)

All-raw_encode : (bs : List ℕ) → All Plain (raw_encode bs)
unfolding raw_encode
All-raw_encode [] = tt
All-raw_encode (a ∷ []) = (no_break (a / 4), (no_break (a % 4 * 16), tt))
All-raw_encode (a ∷ b ∷ []) =
    (no_break (a / 4), (no_break (a % 4 * 16 + b / 16), (no_break (b % 16 * 4), tt)))
All-raw_encode (a ∷ b ∷ c ∷ rest) = (
  no_break (a / 4),
  (
    no_break (a % 4 * 16 + b / 16),
    (no_break (b % 16 * 4 + c / 64), (no_break (c % 64), All-raw_encode rest)),
  ),
)

-- With the padding put back, the text is the one of the standard encoding.
standard-raw_encode :
    (bs : List ℕ) → standard (raw_encode bs) ++ padding (length (raw_encode bs) % 4) ≡ encode bs
unfolding raw_encode encode
standard-raw_encode [] = refl
standard-raw_encode (a ∷ []) =
    rw (standard_char-url_char (a / 4), standard_char-url_char (a % 4 * 16)) refl
standard-raw_encode (a ∷ b ∷ []) =
    rw
      (
        standard_char-url_char (a / 4),
        standard_char-url_char (a % 4 * 16 + b / 16),
        standard_char-url_char (b % 16 * 4),
      )
      refl
standard-raw_encode (a ∷ b ∷ c ∷ rest) =
    let n = length (raw_encode rest) in
    let p : suc (suc (suc (suc n))) % 4 ≡ n % 4 = omega arith in
    rw
      (
        p,
        standard_char-url_char (a / 4),
        standard_char-url_char (a % 4 * 16 + b / 16),
        standard_char-url_char (b % 16 * 4 + c / 64),
        standard_char-url_char (c % 64),
        standard-raw_encode rest,
      )
      refl

length-raw_encode : (bs : List ℕ) → (length (raw_encode bs) % 4 == 1) ≡ false
unfolding raw_encode
length-raw_encode [] = refl
length-raw_encode (a ∷ []) = refl
length-raw_encode (a ∷ b ∷ []) = refl
length-raw_encode (a ∷ b ∷ c ∷ rest) =
    let n = length (raw_encode rest) in
    let p : suc (suc (suc (suc n))) % 4 ≡ n % 4 = omega arith in rw p (length-raw_encode rest)

-- RawURLEncoding decodes what it encodes.
decode_raw-raw_encode : (bs : List ℕ) → All IsByte bs → decode_raw (raw_encode bs) ≡ some bs
unfolding decode_raw
decode_raw-raw_encode bs h =
    rw
      (
        strip-Plain (raw_encode bs) (All-raw_encode bs),
        has_padding-raw_encode bs,
        length-raw_encode bs,
        standard-raw_encode bs,
      )
      (decode-encode bs h)

-- One past the largest number of so many bytes.
abbrev bound : ℕ → ℕ
bound zero = 1
bound (suc n) = bound n * 256

All-fill_bytes : (n x : ℕ) → All IsByte (fill_bytes n x)
unfolding fill_bytes
All-fill_bytes zero x = tt
All-fill_bytes (suc n) x =
    All-append IsByte (fill_bytes n (x / 256)) (x % 256 ∷ []) (All-fill_bytes n (x / 256))
      (omega arith, tt)

set_bytes-append : (n b : ℕ) (bs : List ℕ) → set_bytes n (bs ++ b ∷ []) ≡ set_bytes n bs * 256 + b
unfolding set_bytes
set_bytes-append n b [] = refl
set_bytes-append n b (c ∷ bs) = set_bytes-append (n * 256 + c) b bs

set_bytes-fill_bytes : (n x : ℕ) → x < bound n → set_bytes 0 (fill_bytes n x) ≡ x
unfolding fill_bytes set_bytes
set_bytes-fill_bytes zero x h = omega arith
set_bytes-fill_bytes (suc n) x h =
    rw
      (
        set_bytes-append 0 (x % 256) (fill_bytes n (x / 256)),
        set_bytes-fill_bytes n (x / 256) (omega arith),
      )
      (omega arith)

length-fill_bytes : (n x : ℕ) → length (fill_bytes n x) ≡ n
unfolding fill_bytes
length-fill_bytes zero x = refl
length-fill_bytes (suc n) x =
    rw (length-append (fill_bytes n (x / 256)) (x % 256 ∷ []), length-fill_bytes n (x / 256))
      (omega arith)

p256-bound : p256 < bound 32
p256-bound = ltb→lt p256 (bound 32) refl

-- A raw encoding of bytes that are there is not empty.
non_empty : (bs : List ℕ) → (length bs == 0) ≡ false → str_eq (raw_encode bs) [] ≡ false
unfolding raw_encode str_eq
non_empty [] h = ground arith
non_empty (a ∷ []) h = refl
non_empty (a ∷ b ∷ []) h = refl
non_empty (a ∷ b ∷ c ∷ rest) h = refl

decode-coordinate :
    (x : ℕ) → decode_base64_url (raw_encode (fill_bytes 32 x)) ≡ some (fill_bytes 32 x)
unfolding decode_base64_url
decode-coordinate x =
    rw
      (
        non_empty (fill_bytes 32 x) (ap (λ n. n == 0) (length-fill_bytes 32 x)),
        decode_raw-raw_encode (fill_bytes 32 x) (All-fill_bytes 32 x),
      )
      refl

-- The coordinates of a point on the curve fill 32 bytes.
Bounded : ℕ → ℕ → Type 0
Bounded x y = (x < bound 32) × (y < bound 32)

both : (a b c : Bool) → (a && b && c) ≡ true → (a ≡ true) × (b ≡ true)
both a b c h = ground arith

before : (a b c : ℕ) → a < b → b < c → a < c
before a b c h k = omega arith

is_on_curve-Bounded : (x y : ℕ) → is_on_curve x y ≡ true → Bounded x y
unfolding is_on_curve Bounded
is_on_curve-Bounded x y h =
    let l =
      both (ltb x p256) (ltb y p256) ((y * y + 3 * x) % p256 == (x * x * x + p256_b) % p256) h in
    (
      before x p256 (bound 32) (ltb→lt x p256 l.0) p256-bound,
      before y p256 (bound 32) (ltb→lt y p256 l.1) p256-bound,
    )

ecdsa_of_bytes-fill_bytes :
    (x y : ℕ)
    → is_on_curve x y ≡ true
    → ecdsa_of_bytes (fill_bytes 32 x) (fill_bytes 32 y) ≡ ok (ecdsa x y)
unfolding ecdsa_of_bytes ecdsa_of Bounded
ecdsa_of_bytes-fill_bytes x y h =
    let l = is_on_curve-Bounded x y h in
    rw
      (
        length-fill_bytes 32 x,
        length-fill_bytes 32 y,
        set_bytes-fill_bytes 32 x l.0,
        set_bytes-fill_bytes 32 y l.1,
        h,
      )
      refl

p256-ec_jwk :
    (x y : ℕ) → is_on_curve x y ≡ true → ecdsa_p256 (ec_jwk load_key_id x y) ≡ ok (ecdsa x y)
unfolding ecdsa_p256 ec_jwk
p256-ec_jwk x y h = rw (decode-coordinate x, decode-coordinate y) (ecdsa_of_bytes-fill_bytes x y h)

-- The server reads the key.
pub public_key-ec_jwk :
    (x y : ℕ)
    → is_on_curve x y ≡ true
    → public_key_from_jwk (ec_jwk load_key_id x y) ≡ ok (ecdsa x y)
unfolding public_key_from_jwk ecdsa_public_key ec_jwk str_eq
public_key-ec_jwk x y h = p256-ec_jwk x y h
