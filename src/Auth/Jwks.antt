-- ===== src/Auth/Jwks.antt =====
-- internal/auth/jwks.go: the keys of a JSON Web Key Set. The JSON decoder is represented by what it
-- comes to, and a big integer is a natural number.
pub mod Usable
use ulsync_server.Prelude.{
  ℕ, ◌+◌, ◌-◌, ◌*◌, ◌%◌, ◌^◌, Bool, true, false, not, ◌&&◌, ◌||◌, Option, none, some, List, [], ◌∷◌,
  ◌++◌, Str, codes, str_eq, ltb, leb, ◌==◌, length, Result, ok, err, ◌>>=◌, if◌then◌else◌,
}
use ulsync_server.HttpApi.Base64.{decode, strip}

pub record Jwk : Type 0 where
  pub kty : Str
  pub kid : Str
  pub use_of : Str
  pub crv : Str
  pub n : Str
  pub e : Str
  pub x : Str
  pub y : Str

pub data PublicKey : Type 0 where
  rsa ecdsa : ℕ → ℕ → PublicKey

pub data SkipReason : Type 0 where
  use_enc missing_kid unsupported_kty malformed_modulus malformed_exponent empty_modulus_or_exponent
        exponent_too_large exponent_too_small modulus_not_positive unsupported_curve malformed_x
        malformed_y empty_coordinate not_on_curve :
      SkipReason

-- The URL alphabet in terms of the standard one.
abbrev pub standard_char : ℕ → ℕ
standard_char c =
    if c == b'-' then b'+' else if c == b'_' then b'/' else if c == b'+' || c == b'/' then 0 else c

abbrev pub standard : Str → Str
standard [] = []
standard (c ∷ s) = standard_char c ∷ standard s

abbrev pub has_padding : Str → Bool
has_padding [] = false
has_padding (c ∷ s) = c == b'=' || has_padding s

abbrev pub padding : ℕ → Str
padding n = if n == 0 then [] else if n == 3 then b'=' ∷ [] else b'=' ∷ b'=' ∷ []

-- `base64.RawURLEncoding.DecodeString`: without padding.
unfoldable pub decode_raw : Str → Option (List ℕ)
unfolding decode strip
decode_raw s =
    if has_padding s || length (strip s) % 4 == 1
    then none
    else decode (standard (strip s) ++ padding (length (strip s) % 4))

-- `decodeBase64URL`
unfoldable pub decode_base64_url : Str → Option (List ℕ)
unfolding decode_raw decode
decode_base64_url s =
    let padded = decode (standard s) in
    if str_eq s [] then none else elim (decode_raw s) [ some b ↦ some b | none ↦ padded ]

-- `big.Int.SetBytes`
unfoldable pub set_bytes : ℕ → List ℕ → ℕ
set_bytes n [] = n
set_bytes n (b ∷ bytes) = set_bytes (n * 256 + b) bytes

-- The loop over the exponent, none for one that is too large.
unfoldable pub exponent : ℕ → List ℕ → Option ℕ
exponent exp [] = some exp
exponent exp (b ∷ bytes) =
    let rest = exponent (exp * 256 + b) bytes in if ltb (2 ^ 24) (exp * 256 + b) then none else rest

abbrev pub or_skip {ℓ} : {A : Type ℓ} → SkipReason → Option A → Result SkipReason A
or_skip reason none = err reason
or_skip reason (some a) = ok a

unfoldable pub rsa_of : List ℕ → ℕ → Result SkipReason PublicKey
unfolding set_bytes
rsa_of n exp =
    if ltb exp 2
    then err exponent_too_small
    else if set_bytes 0 n == 0
    then err modulus_not_positive
    else ok (rsa (set_bytes 0 n) exp)

unfoldable pub rsa_of_bytes : List ℕ → List ℕ → Result SkipReason PublicKey
unfolding exponent rsa_of
rsa_of_bytes n e =
    if length n == 0 || length e == 0
    then err empty_modulus_or_exponent
    else or_skip exponent_too_large (exponent 0 e) >>= λ exp. rsa_of n exp

-- `rsaPublicKey`
unfoldable pub rsa_public_key : Jwk → Result SkipReason PublicKey
unfolding decode_base64_url rsa_of_bytes
rsa_public_key k = do
  n ← or_skip malformed_modulus (decode_base64_url k.n)
  e ← or_skip malformed_exponent (decode_base64_url k.e)
  rsa_of_bytes n e

-- The prime and the constant of P-256.
abbrev pub p256 : ℕ
p256 = 2 ^ 256 - 2 ^ 224 + 2 ^ 192 + 2 ^ 96 - 1

abbrev pub p256_b : ℕ
p256_b = 41058363725152142129326129780047268409114441015993725554835256314039467401291

-- `IsOnCurve`: y² = x³ - 3x + b, for coordinates below the prime.
unfoldable pub is_on_curve : ℕ → ℕ → Bool
is_on_curve x y = ltb x p256 && ltb y p256 && (y * y + 3 * x) % p256 == (x * x * x + p256_b) % p256

unfoldable pub ecdsa_of : ℕ → ℕ → Result SkipReason PublicKey
unfolding is_on_curve
ecdsa_of x y = if is_on_curve x y then ok (ecdsa x y) else err not_on_curve

unfoldable pub ecdsa_of_bytes : List ℕ → List ℕ → Result SkipReason PublicKey
unfolding ecdsa_of set_bytes
ecdsa_of_bytes x y =
    if length x == 0 || length y == 0
    then err empty_coordinate
    else ecdsa_of (set_bytes 0 x) (set_bytes 0 y)

-- `ecdsaPublicKey` on the right curve.
unfoldable pub ecdsa_p256 : Jwk → Result SkipReason PublicKey
unfolding decode_base64_url ecdsa_of_bytes
ecdsa_p256 k = do
  x ← or_skip malformed_x (decode_base64_url k.x)
  y ← or_skip malformed_y (decode_base64_url k.y)
  ecdsa_of_bytes x y

-- `ecdsaPublicKey`
unfoldable pub ecdsa_public_key : Jwk → Result SkipReason PublicKey
unfolding ecdsa_p256
ecdsa_public_key k = if str_eq k.crv (codes "P-256") then ecdsa_p256 k else err unsupported_curve

-- `publicKeyFromJWK`; its error is always nil.
unfoldable pub public_key_from_jwk : Jwk → Result SkipReason PublicKey
unfolding rsa_public_key ecdsa_public_key
public_key_from_jwk k =
    if str_eq k.use_of (codes "enc")
    then err use_enc
    else if str_eq k.kid []
    then err missing_kid
    else if str_eq k.kty (codes "RSA")
    then rsa_public_key k
    else if str_eq k.kty (codes "EC")
    then ecdsa_public_key k
    else err unsupported_kty

-- `out[kid] = pub`
unfoldable pub put_key : Str → PublicKey → List (Str × PublicKey) → List (Str × PublicKey)
put_key kid key [] = (kid, key) ∷ []
put_key kid key ((k, old) ∷ keys) =
    if str_eq k kid then (k, key) ∷ keys else (k, old) ∷ put_key kid key keys

unfoldable pub keep_key :
    Str → Result SkipReason PublicKey → List (Str × PublicKey) → List (Str × PublicKey)
unfolding put_key
keep_key kid (err reason) keys = keys
keep_key kid (ok key) keys = put_key kid key keys

-- The loop of `parseJWKS`.
unfoldable pub add_keys : List (Str × PublicKey) → List Jwk → List (Str × PublicKey)
unfolding keep_key public_key_from_jwk
add_keys keys [] = keys
add_keys keys (k ∷ ks) = add_keys (keep_key k.kid (public_key_from_jwk k) keys) ks

-- `parseJWKS`, of what the JSON decoder comes to.
unfoldable pub parse_jwks : Option (List Jwk) → Option (List (Str × PublicKey))
unfolding add_keys
parse_jwks none = none
parse_jwks (some ks) = some (add_keys [] ks)
