-- ===== src/Tests/Tokens.antt =====
-- The properties of internal/auth/verifier.go with a library that takes each token for its kid.
use ulsync_server.Prelude.{
  ◌*◌, ℕ, ◌≡◌, ◌≢◌, ◌↔◌, refl, true, none, some, List, [], ◌∷◌, Str, codes, str_eq, trim_space,
}
use ulsync_server.Auth.{
  AuthSettings, public_key, Jwt, Verifier, Circumstances, parse_error, parsed, find_key, key_func,
  has_key, reload, refresh_if_stale, refetch_unknown_kid, prepare_keys, diagnose, verify, is_stale,
  may_refetch,
}
use ulsync_server.Auth.Keys.{Chosen, key_func_iff, verify-some}
use ulsync_server.Auth.Refetch.{Spaced, state, refetch_times, refetch_times-Spaced}

program : Unit {0}
unfolding str_eq trim_space find_key key_func has_key reload refresh_if_stale refetch_unknown_kid
    prepare_keys diagnose verify is_stale may_refetch refetch_times state
program = tt

abbrev settings : AuthSettings
settings = record {
  jwks_url = codes "https://id";
  jwks_file = [];
  jwks_cache_ttl = 0;
  dev_hs256_secret = codes "s";
}

abbrev library : Jwt ℕ
library = record {
  peek_kid = λ token. token;
  parse_with_claims = λ token key_of. elim (key_of (codes "ES256") token) [
    | none ↦ parse_error
    | some m ↦ parsed true (codes "ann")
  ];
}

abbrev no_keys : Verifier ℕ
no_keys = record { keys = []; loaded_at = some 1; last_unknown_kid_fetch = none }

-- A call at a time in seconds; a load finds one key.
abbrev at_second : ℕ → Circumstances ℕ
at_second n = record {
  stale_checked_at = n * 1000000000;
  refreshed = none;
  refreshed_at = n * 1000000000;
  unknown_checked_at = n * 1000000000;
  refetched = some ((codes "k", 7) ∷ []);
  refetched_at = n * 1000000000;
}

public_key_of_kid :
    (key_func {K = ℕ} settings ((codes "k", 7) ∷ []) (codes "ES256") (codes "k")
      ≡ some (public_key 7))
    ↔ Chosen {K = ℕ} settings ((codes "k", 7) ∷ []) (codes "ES256") (codes "k") (public_key 7)
public_key_of_kid =
    key_func_iff {K = ℕ} settings ((codes "k", 7) ∷ []) (codes "ES256") (codes "k") (public_key 7)

verify-some_example :
    (codes "ann" ≢ [])
    × (library.parse_with_claims
          (codes "k")
          (key_func settings (verify settings library (at_second 5) (codes "k") no_keys).0.keys)
        ≡ parsed true (codes "ann"))
unfolding program
verify-some_example = verify-some settings library (at_second 5) (codes "k") no_keys refl

abbrev calls : List (Circumstances ℕ × Str)
calls = (at_second 130, codes "y") ∷ (at_second 30, codes "x") ∷ (at_second 9, codes "k") ∷ []

refetch_times-Spaced_example :
    Spaced settings library (refetch_times settings library calls no_keys)
refetch_times-Spaced_example = refetch_times-Spaced settings library calls no_keys

two_reloads : refetch_times settings library calls no_keys ≡ 130000000000 ∷ 9000000000 ∷ []
unfolding program
two_reloads = refl
