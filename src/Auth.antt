-- ===== src/Auth.antt =====
-- internal/auth/verifier.go: the key set of the token check, its reloads, and the choice of the key.
-- The JWT library, the keys and the documents that hold them are arguments.
pub mod Keys
pub mod Refetch
pub mod Jwks
pub mod Fetch
use ulsync_server.Prelude.{
  ℕ, ◌+◌, ◌-◌, ◌*◌, Bool, true, false, not, ◌&&◌, ◌||◌, Option, none, some, List, [], ◌∷◌, Str,
  codes, str_eq, ltb, leb, ◌==◌, trim_space, if◌then◌else◌,
}
use ulsync_server.Prelude.Int.{ℤ, pos, negsuc}

-- One minute of nanoseconds.
abbrev pub unknown_kid_refetch_interval : ℕ
unknown_kid_refetch_interval = 60 * 1000000000

abbrev pub hs256 : Str
hs256 = codes "HS256"

-- The fields of `config.Auth` that the verifier reads after its start. A cache time that is not
-- positive is 0.
pub record AuthSettings : Type 0 where
  pub jwks_url : Str
  pub jwks_file : Str
  pub jwks_cache_ttl : ℕ
  pub dev_hs256_secret : Str

-- What a key function hands to the library: the secret, or a public key.
pub data Material (K : Type 0) : Type 0 where
  secret : Str → Material K
  public_key : K → Material K

-- What `ParseWithClaims` makes of a token.
pub data Parsed : Type 0 where
  parse_error : Parsed
  parsed : Bool → Str → Parsed

-- The JWT library: the kid of an unverified header, "" for none, and the verification of a token
-- with a key function of the header's alg and kid.
pub record Jwt (K : Type 0) : Type 0 where
  pub peek_kid : Str → Str
  pub parse_with_claims : Str → (Str → Str → Option (Material K)) → Parsed

-- `Verifier`; a time is none while it is zero.
pub record Verifier (K : Type 0) : Type 0 where
  pub keys : List (Str × K)
  pub loaded_at : Option ℕ
  pub last_unknown_kid_fetch : Option ℕ

-- What one call of `Diagnose` meets: the clock at each reading, and the outcome of each load of the
-- key set, none for an error.
pub record Circumstances (K : Type 0) : Type 0 where
  pub stale_checked_at : ℕ
  pub refreshed : Option (List (Str × K))
  pub refreshed_at : ℕ
  pub unknown_checked_at : ℕ
  pub refetched : Option (List (Str × K))
  pub refetched_at : ℕ

-- The reasons of `Diagnose`, that of the library without its text.
pub data Diagnosis : Type 0 where
  valid : Str → Diagnosis
  missing_token rejected_by_library token_not_valid missing_sub : Diagnosis

abbrev pub configured : AuthSettings → Bool
configured cfg =
    not (str_eq (trim_space cfg.jwks_file) []) || not (str_eq (trim_space cfg.jwks_url) [])

-- Has the cache time passed?
unfoldable pub is_stale : ℕ → ℕ → Option ℕ → Bool
is_stale ttl now none = false
is_stale ttl now (some loaded) = leb ttl (now - loaded)

-- May a reload for an unknown kid start now?
unfoldable pub may_refetch : ℕ → Option ℕ → Bool
may_refetch now none = true
may_refetch now (some last) = not (ltb (now - last) unknown_kid_refetch_interval)

unfoldable pub judge : Parsed → Diagnosis
judge parse_error = rejected_by_library
judge (parsed false sub) = token_not_valid
judge (parsed true sub) = if str_eq sub [] then missing_sub else valid sub

-- The result of `Verify` from that of `Diagnose`: the subject, or none for `errUnauthorized`.
unfoldable pub subject_of : Diagnosis → Option Str
subject_of (valid sub) = some sub
subject_of missing_token = none
subject_of rejected_by_library = none
subject_of token_not_valid = none
subject_of missing_sub = none

module _ {K : Type 0} where
  unfoldable pub find_key : Str → List (Str × K) → Option K
  find_key kid [] = none
  find_key kid ((k, key) ∷ keys) = if str_eq k kid then some key else find_key kid keys

  -- `keyFunc`
  unfoldable pub key_func : AuthSettings → List (Str × K) → Str → Str → Option (Material K)
  unfolding find_key
  key_func cfg keys alg kid =
      if str_eq alg hs256
      then if str_eq cfg.dev_hs256_secret [] then none else some (secret cfg.dev_hs256_secret)
      else if str_eq kid []
      then none
      else elim (find_key kid keys) [ none ↦ none | some key ↦ some (public_key key) ]

  unfoldable pub has_key : Str → Verifier K → Bool
  unfolding find_key
  has_key kid v = elim (find_key kid v.keys) [ none ↦ false | some key ↦ true ]

  -- `reload` with `loadFile` and `fetchURL`: the verifier, and false for an error. With neither a file
  -- nor a URL it does nothing.
  unfoldable pub reload :
      AuthSettings → Option (List (Str × K)) → ℕ → Verifier K → Verifier K × Bool
  reload cfg loaded at v =
      if configured cfg
      then elim loaded [
        | none ↦ (v, false)
        | some keys ↦ (record v { keys = keys; loaded_at = some at }, true)
      ]
      else (v, true)

  -- After the reload of `refreshIfStale`: a failure counts as a load.
  unfoldable pub after_refresh : ℕ → Verifier K × Bool → Verifier K
  after_refresh at (v, true) = v
  after_refresh at (v, false) = record v { loaded_at = some at }

  -- `refreshIfStale`
  unfoldable pub refresh_if_stale : AuthSettings → Circumstances K → Verifier K → Verifier K
  unfolding reload is_stale after_refresh
  refresh_if_stale cfg c v =
      if cfg.jwks_cache_ttl == 0
      then v
      else if is_stale cfg.jwks_cache_ttl c.stale_checked_at v.loaded_at
      then after_refresh c.refreshed_at (reload cfg c.refreshed c.refreshed_at v)
      else v

  -- `refetchUnknownKID`; the flag says whether it reloads.
  unfoldable pub refetch_unknown_kid :
      AuthSettings → Circumstances K → Verifier K → Verifier K × Bool
  unfolding reload may_refetch
  refetch_unknown_kid cfg c v =
      if may_refetch c.unknown_checked_at v.last_unknown_kid_fetch
      then (
        (reload cfg c.refetched c.refetched_at
            (record v { last_unknown_kid_fetch = some c.unknown_checked_at })).0,
        true,
      )
      else (v, false)

  -- The key set that `Diagnose` verifies with, and whether it reloaded for an unknown kid.
  unfoldable pub prepare_keys :
      AuthSettings → Jwt K → Circumstances K → Str → Verifier K → Verifier K × Bool
  unfolding refresh_if_stale refetch_unknown_kid has_key
  prepare_keys cfg jwt c bearer v =
      let fresh = refresh_if_stale cfg c v in
      let kid = jwt.peek_kid bearer in
      if not (str_eq kid []) && not (has_key kid fresh)
      then refetch_unknown_kid cfg c fresh
      else (fresh, false)

  -- `Diagnose`
  unfoldable pub diagnose :
      AuthSettings → Jwt K → Circumstances K → Str → Verifier K → Verifier K × Diagnosis
  unfolding prepare_keys judge key_func
  diagnose cfg jwt c bearer v = if str_eq bearer [] then (v, missing_token) else (
    (prepare_keys cfg jwt c bearer v).0,
    judge (jwt.parse_with_claims bearer (key_func cfg (prepare_keys cfg jwt c bearer v).0.keys)),
  )

  -- `Verify`
  unfoldable pub verify :
      AuthSettings → Jwt K → Circumstances K → Str → Verifier K → Verifier K × Option Str
  unfolding diagnose subject_of
  verify cfg jwt c bearer v =
      let result = diagnose cfg jwt c bearer v in (result.0, subject_of result.1)

  -- `NewVerifier`: none for an error. `loaded` is the outcome of its first load.
  unfoldable pub new_verifier :
      AuthSettings → List Str → Option (List (Str × K)) → ℕ → Option (Verifier K)
  new_verifier cfg [] loaded now = none
  new_verifier cfg (alg ∷ algs) loaded now =
      if not (str_eq (trim_space cfg.jwks_file) [])
      then elim loaded [
        | none ↦ none
        | some keys ↦
            some (record { keys = keys; loaded_at = some now; last_unknown_kid_fetch = none })
      ]
      else if not (str_eq (trim_space cfg.jwks_url) [])
      then some (record {
        keys = elim loaded [ none ↦ [] | some keys ↦ keys ];
        loaded_at = some now;
        last_unknown_kid_fetch = none;
      })
      else some (record { keys = []; loaded_at = none; last_unknown_kid_fetch = none })
