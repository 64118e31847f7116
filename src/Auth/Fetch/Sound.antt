-- ===== src/Auth/Fetch/Sound.antt =====
-- The keys that internal/auth/verifier.go verifies with.
use ulsync_server.Prelude.{
  ℕ, ◌≡◌, ◌≢◌, refl, sym, subst, Bool, true, false, not, ◌&&◌, Option, none, some, List, [], ◌∷◌,
  Str, str_eq, ltb, ◌==◌, trim_space, ok, err, Result, All, if_both,
}
use ulsync_server.Auth.{
  AuthSettings, Jwt, Verifier, Diagnosis, Circumstances, configured, reload, is_stale,
  after_refresh, refresh_if_stale, may_refetch, refetch_unknown_kid, has_key, prepare_keys,
  diagnose,
}
use ulsync_server.Auth.Jwks.{
  Jwk, PublicKey, SkipReason, put_key, keep_key, add_keys, parse_jwks, public_key_from_jwk,
}
use ulsync_server.Auth.Jwks.Usable.{IsSound, public_key_from_jwk-IsSound}
use ulsync_server.Auth.Fetch.{
  max_jwks_bytes, FileRead, read_failed, file_read, Fetch, no_request, no_response, responded,
  load_file, parse_body, fetch_url, load_keys,
}

-- A kid that is not empty, with a key that is sound.
abbrev pub IsEntry : Str × PublicKey → Type 0
IsEntry (kid, key) = (kid ≢ []) × IsSound key

put_key-All :
    (kid : Str) (key : PublicKey) (keys : List (Str × PublicKey))
    → IsEntry (kid, key)
    → All IsEntry keys
    → All IsEntry (put_key kid key keys)
unfolding put_key
put_key-All kid key [] e h = (e, tt)
put_key-All kid key ((k, old) ∷ keys) e h =
    if_both (All IsEntry) (str_eq k kid) ((h.0.0, e.1), h.1) (h.0, put_key-All kid key keys e h.1)

keep_key-All :
    (k : Jwk) (keys : List (Str × PublicKey)) (r : Result SkipReason PublicKey)
    → public_key_from_jwk k ≡ r
    → All IsEntry keys
    → All IsEntry (keep_key k.kid r keys)
unfolding keep_key
keep_key-All k keys (err reason) e h = h
keep_key-All k keys (ok key) e h =
    let (present, signs, sound) = public_key_from_jwk-IsSound k e in
    put_key-All k.kid key keys (present, sound) h

add_keys-All :
    (ks : List Jwk) (keys : List (Str × PublicKey))
    → All IsEntry keys
    → All IsEntry (add_keys keys ks)
unfolding add_keys
add_keys-All [] keys h = h
add_keys-All (k ∷ ks) keys h =
    add_keys-All ks (keep_key k.kid (public_key_from_jwk k) keys)
      (keep_key-All k keys (public_key_from_jwk k) refl h)

-- The entries of what a load comes to.
abbrev pub Loaded : Option (List (Str × PublicKey)) → Type 0
Loaded none = Unit
Loaded (some keys) = All IsEntry keys

parse_jwks-Loaded : (document : Option (List Jwk)) → Loaded (parse_jwks document)
unfolding parse_jwks
parse_jwks-Loaded none = tt
parse_jwks-Loaded (some ks) = add_keys-All ks [] tt

load_file-Loaded : (file : FileRead) → Loaded (load_file file)
unfolding load_file
load_file-Loaded read_failed = tt
load_file-Loaded (file_read document) = parse_jwks-Loaded document

parse_body-Loaded : (body : Option (ℕ × Option (List Jwk))) → Loaded (parse_body body)
unfolding parse_body
parse_body-Loaded none = tt
parse_body-Loaded (some (size, document)) =
    if_both Loaded (ltb max_jwks_bytes size) tt (parse_jwks-Loaded document)

fetch_url-Loaded : (fetch : Fetch) → Loaded (fetch_url fetch)
unfolding fetch_url
fetch_url-Loaded no_request = tt
fetch_url-Loaded no_response = tt
fetch_url-Loaded (responded status body) =
    if_both Loaded (status == 200) (parse_body-Loaded body) tt

load_keys-Loaded :
    (cfg : AuthSettings) (file : FileRead) (fetch : Fetch) → Loaded (load_keys cfg file fetch)
unfolding load_keys
load_keys-Loaded cfg file fetch =
    if_both Loaded (not (str_eq (trim_space cfg.jwks_file) [])) (load_file-Loaded file)
      (fetch_url-Loaded fetch)

module _ (cfg : AuthSettings) where
  abbrev Holds : Verifier PublicKey → Type 0
  Holds v = All IsEntry v.keys

  abbrev HoldsFirst : Verifier PublicKey × Bool → Type 0
  HoldsFirst r = Holds r.0

  reload-Holds :
      (loaded : Option (List (Str × PublicKey))) (at : ℕ) (v : Verifier PublicKey)
      → Loaded loaded
      → Holds v
      → Holds (reload cfg loaded at v).0
  unfolding reload
  reload-Holds none at v l h = if_both HoldsFirst (configured cfg) h h
  reload-Holds (some keys) at v l h = if_both HoldsFirst (configured cfg) l h

  after_refresh-Holds :
      (at : ℕ) (r : Verifier PublicKey × Bool) → Holds r.0 → Holds (after_refresh at r)
  unfolding after_refresh
  after_refresh-Holds at (v, true) h = h
  after_refresh-Holds at (v, false) h = h

  refresh-Holds :
      (c : Circumstances PublicKey) (v : Verifier PublicKey)
      → Loaded c.refreshed
      → Holds v
      → Holds (refresh_if_stale cfg c v)
  unfolding refresh_if_stale
  refresh-Holds c v l h = if_both Holds (cfg.jwks_cache_ttl == 0) h (
      if_both Holds (is_stale cfg.jwks_cache_ttl c.stale_checked_at v.loaded_at)
        (after_refresh-Holds c.refreshed_at _ (reload-Holds c.refreshed c.refreshed_at v l h)) h)

  refetch-Holds :
      (c : Circumstances PublicKey) (v : Verifier PublicKey)
      → Loaded c.refetched
      → Holds v
      → Holds (refetch_unknown_kid cfg c v).0
  unfolding refetch_unknown_kid
  refetch-Holds c v l h =
      if_both HoldsFirst (may_refetch c.unknown_checked_at v.last_unknown_kid_fetch)
        (reload-Holds c.refetched c.refetched_at
          (record v { last_unknown_kid_fetch = some c.unknown_checked_at }) l h)
        h

  -- Every key that the verifier holds has a kid that is not empty and is sound, an RSA key with a
  -- positive modulus and an exponent from 2 to 2^24, or a point of P-256; a call of Diagnose keeps
  -- this, whatever files and responses its reloads read.
  pub diagnose-IsEntry :
      (jwt : Jwt PublicKey) (c : Circumstances PublicKey) (bearer : Str) (v : Verifier PublicKey)
      (f g : FileRead) (a b : Fetch)
      → c.refreshed ≡ load_keys cfg f a
      → c.refetched ≡ load_keys cfg g b
      → All IsEntry v.keys
      → All IsEntry (diagnose cfg jwt c bearer v).0.keys
  unfolding diagnose prepare_keys
  diagnose-IsEntry jwt c bearer v f g a b first second h =
      let fresh = refresh-Holds c v (subst Loaded (sym first) (load_keys-Loaded cfg f a)) h in
      let again =
        refetch-Holds c (refresh_if_stale cfg c v)
          (subst Loaded (sym second) (load_keys-Loaded cfg g b)) fresh in
      if_both (λ (r : Verifier PublicKey × Diagnosis). Holds r.0) (str_eq bearer []) h
        (if_both HoldsFirst
          (not (str_eq (jwt.peek_kid bearer) [])
            && not (has_key (jwt.peek_kid bearer) (refresh_if_stale cfg c v)))
          again fresh)
