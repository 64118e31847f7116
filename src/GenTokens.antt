-- ===== src/GenTokens.antt =====
-- load/gentokens/main.go: a key set and tokens for load runs. The key pair, the signatures and the
-- files are represented by what the calls come to.
pub mod RoundTrip
pub mod Written
use ulsync_server.Prelude.{
  ℕ, zero, suc, ◌+◌, ◌-◌, ◌*◌, ◌/◌, ◌%◌, Bool, not, Option, none, some, List, [], ◌∷◌, ◌++◌, Str,
  codes, ltb, length, ◌==◌, if◌then◌else◌,
}
use ulsync_server.Prelude.Decimal.{decimal}
use ulsync_server.Auth.Jwks.{Jwk}

-- `loadKeyID`
abbrev pub load_key_id : Str
load_key_id = codes "load-es256-1"

-- `big.Int.FillBytes`: big-endian, of a fixed length.
unfoldable pub fill_bytes : ℕ → ℕ → List ℕ
fill_bytes zero x = []
fill_bytes (suc n) x = fill_bytes n (x / 256) ++ (x % 256) ∷ []

-- The URL alphabet.
unfoldable pub url_char : ℕ → ℕ
url_char v =
    if ltb v 26
    then v + b'A'
    else if ltb v 52
    then v - 26 + b'a'
    else if ltb v 62
    then v - 52 + b'0'
    else if v == 62
    then b'-'
    else b'_'

-- `base64.RawURLEncoding.EncodeToString`
unfoldable pub raw_encode : List ℕ → Str
unfolding url_char
raw_encode [] = []
raw_encode (a ∷ []) = url_char (a / 4) ∷ url_char (a % 4 * 16) ∷ []
raw_encode (a ∷ b ∷ []) =
    url_char (a / 4) ∷ url_char (a % 4 * 16 + b / 16) ∷ url_char (b % 16 * 4) ∷ []
raw_encode (a ∷ b ∷ c ∷ rest) =
    url_char (a / 4)
    ∷ url_char (a % 4 * 16 + b / 16)
    ∷ url_char (b % 16 * 4 + c / 64)
    ∷ url_char (c % 64)
    ∷ raw_encode rest

-- `ecJWK`
unfoldable pub ec_jwk : Str → ℕ → ℕ → Jwk
unfolding fill_bytes raw_encode
ec_jwk kid x y = record {
  kty = codes "EC";
  kid = kid;
  use_of = codes "sig";
  crv = codes "P-256";
  n = [];
  e = [];
  x = raw_encode (fill_bytes 32 x);
  y = raw_encode (fill_bytes 32 y);
}

-- What a token says: the kid of its header and its registered claims, in seconds.
pub record Token : Type 0 where
  pub kid : Str
  pub subject : Str
  pub issued_at : ℕ
  pub expires_at : ℕ

-- `tokenLifetime`
abbrev pub token_lifetime : ℕ
token_lifetime = 24 * 3600

abbrev pub zero_digits : ℕ → Str
zero_digits zero = []
zero_digits (suc n) = b'0' ∷ zero_digits n

-- `%04d` of a number below 2^63.
unfoldable pub four_digits : ℕ → Str
unfolding decimal
four_digits i = zero_digits (4 - length (decimal 19 i)) ++ decimal 19 i

unfoldable pub load_token : ℕ → ℕ → Token
unfolding four_digits
load_token now i = record {
  kid = load_key_id;
  subject = codes "load-user-" ++ four_digits i;
  issued_at = now;
  expires_at = now + token_lifetime;
}

-- The answers of the calls; the key pair is its public point, which the signer signs for.
pub record CallResults : Type 0 where
  pub makes_directory : Bool
  pub key : Option (ℕ × ℕ)
  pub writes_jwks : Bool
  pub now : ℕ
  pub signed_string : Token → Option Str
  pub writes_tokens : Bool

pub data GenerateError : Type 0 where
  too_few create_output generate_key write_jwks_file sign_token write_tokens_file : GenerateError

-- The files that a run leaves, each none if it was not written as a whole.
pub record Output : Type 0 where
  pub jwks : Option (List Jwk)
  pub tokens : Option (List Str)

-- The loop of `writeTokens`, from the i-th token on.
unfoldable pub sign_tokens : CallResults → ℕ → ℕ → Option (List Str)
unfolding load_token
sign_tokens a i zero = some []
sign_tokens a i (suc n) =
    let rest = sign_tokens a (i + 1) n in
    elim (a.signed_string (load_token a.now i)) [
      | none ↦ none
      | some token ↦ elim rest [ none ↦ none | some tokens ↦ some (token ∷ tokens) ]
    ]

unfoldable pub write_tokens :
    CallResults → List Jwk → Option (List Str) → Output × Option GenerateError
write_tokens a ks none = (record { jwks = some ks; tokens = none }, some sign_token)
write_tokens a ks (some tokens) =
    if a.writes_tokens
    then (record { jwks = some ks; tokens = some tokens }, none)
    else (record { jwks = some ks; tokens = none }, some write_tokens_file)

-- `writeJWKS`, and what follows it.
unfoldable pub write_jwks : CallResults → ℕ → Option (ℕ × ℕ) → Output × Option GenerateError
unfolding ec_jwk sign_tokens write_tokens
write_jwks a n none = (record { jwks = none; tokens = none }, some generate_key)
write_jwks a n (some (x, y)) =
    if a.writes_jwks
    then write_tokens a (ec_jwk load_key_id x y ∷ []) (sign_tokens a 0 n)
    else (record { jwks = none; tokens = none }, some write_jwks_file)

-- `generate`
unfoldable pub generate : CallResults → ℕ → Output × Option GenerateError
unfolding write_jwks
generate a n =
    if ltb n 1
    then (record { jwks = none; tokens = none }, some too_few)
    else if not a.makes_directory
    then (record { jwks = none; tokens = none }, some create_output)
    else write_jwks a n a.key
