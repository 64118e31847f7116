-- ===== src/Auth/Fetch.antt =====
-- `loadFile`, `fetchURL` and the choice of `reload` in internal/auth/verifier.go. The file system, the
-- HTTP client and the JSON decoder are represented by what they come to.
pub mod Sound
use ulsync_server.Prelude.{
  ℕ, ◌*◌, Bool, not, Option, none, some, List, Str, str_eq, ltb, ◌==◌, trim_space, if◌then◌else◌,
  [],
}
use ulsync_server.Auth.{AuthSettings}
use ulsync_server.Auth.Jwks.{Jwk, PublicKey, parse_jwks}

-- `maxJWKSBytes`
abbrev pub max_jwks_bytes : ℕ
max_jwks_bytes = 1048576

-- `os.ReadFile`, and what the JSON decoder makes of the bytes.
pub data FileRead : Type 0 where
  read_failed : FileRead
  file_read : Option (List Jwk) → FileRead

-- A request: no response, or a status and a body, none if reading it fails; a body has the length that
-- a reader limited to one byte more than the cap reads, and what the JSON decoder makes of it.
pub data Fetch : Type 0 where
  no_request no_response : Fetch
  responded : ℕ → Option (ℕ × Option (List Jwk)) → Fetch

-- `loadFile`, none for an error.
unfoldable pub load_file : FileRead → Option (List (Str × PublicKey))
unfolding parse_jwks
load_file read_failed = none
load_file (file_read document) = parse_jwks document

unfoldable pub parse_body : Option (ℕ × Option (List Jwk)) → Option (List (Str × PublicKey))
unfolding parse_jwks
parse_body none = none
parse_body (some (size, document)) =
    let keys = parse_jwks document in if ltb max_jwks_bytes size then none else keys

-- `fetchURL`, none for an error.
unfoldable pub fetch_url : Fetch → Option (List (Str × PublicKey))
unfolding parse_body
fetch_url no_request = none
fetch_url no_response = none
fetch_url (responded status body) =
    let keys = parse_body body in if status == 200 then keys else none

-- The source that `reload` reads: the file goes before the URL.
unfoldable pub load_keys : AuthSettings → FileRead → Fetch → Option (List (Str × PublicKey))
unfolding load_file fetch_url
load_keys cfg file fetch =
    if not (str_eq (trim_space cfg.jwks_file) []) then load_file file else fetch_url fetch
