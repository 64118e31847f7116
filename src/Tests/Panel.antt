-- ===== src/Tests/Panel.antt =====
-- The properties of internal/admin and of internal/auth/jwks.go at small inputs.
use ulsync_server.Prelude.{
  ℕ, ◌*◌, ◌≡◌, ◌↔◌, ◌⊎◌, refl, All, true, false, Bool, ◌++◌, Option, none, some, List, [], ◌∷◌, Str,
  codes, str_eq, trim_space,
}
use ulsync_server.Config.{Config, embedded}
use ulsync_server.Config.Load.{decoded}
use ulsync_server.Config.Redacted.{with_secrets, redacted, mask, copy_slice}
use ulsync_server.Store.Pools.{Stats}
use ulsync_server.Metrics.{new_collector}
use ulsync_server.Live.{new}
use ulsync_server.Auth.{
  AuthSettings, Jwt, Circumstances, Verifier, parse_error, has_key, reload, refresh_if_stale,
  refetch_unknown_kid, prepare_keys, diagnose, is_stale, may_refetch, find_key,
}
use ulsync_server.Auth.Jwks.{
  Jwk, PublicKey, rsa, decode_base64_url, decode_raw, set_bytes, exponent, rsa_of, rsa_of_bytes,
  rsa_public_key, public_key_from_jwk, put_key, keep_key, add_keys, parse_jwks, is_on_curve,
}
use ulsync_server.Auth.Jwks.Usable.{IsLast, gives, find_key-parse_jwks}
use ulsync_server.Auth.Fetch.{
  read_failed, no_response, responded, load_file, parse_body, fetch_url, load_keys,
}
use ulsync_server.Auth.Fetch.Sound.{IsEntry, diagnose-IsEntry}
use ulsync_server.HttpApi.Base64.{decode, strip}
use ulsync_server.HttpApi.Server.{cut_space, to_lower, is_get}
use ulsync_server.Admin.{
  Request, body_eof, unauthorized, page, require_admin_bearer, admin_route, serve_route,
  serve_panel,
}
use ulsync_server.Admin.Guard.{Bears, serve_panel-guarded}
use ulsync_server.Admin.Snapshot.{
  Options, stats_every, Tick, Cache, Seen, stale, after_stats, refresh_stats, build_snapshot, tick,
  Snapshot, FrameCalls, done, not_supported, failed, fails, send_payload, after_frame,
  write_snapshot_frame, ticked, event_loop, serve_events,
}
use ulsync_server.Admin.Snapshot.Secrets.{build_snapshot-with_secrets}
use ulsync_server.Admin.Snapshot.Throttle.{cache_after, calls, newest, Spaced, Shown, calls-Spaced}
use ulsync_server.Tests.Data.{no_rows, answering}
use ulsync_server.Tests.Documents.{short, filled}

unfoldable pub program : Unit {0}
unfolding load_file parse_body fetch_url load_keys has_key reload refresh_if_stale
    refetch_unknown_kid prepare_keys diagnose is_stale may_refetch str_eq trim_space find_key
    decode_base64_url decode_raw set_bytes exponent rsa_of rsa_of_bytes rsa_public_key
    public_key_from_jwk put_key keep_key add_keys parse_jwks gives decode strip cut_space to_lower
    require_admin_bearer is_get admin_route serve_route serve_panel stats_every stale after_stats
    refresh_stats cache_after calls newest redacted mask copy_slice build_snapshot is_on_curve
    ulsync_server.Tests.Documents.program
program = tt

-- The generator of P-256.
on_curve :
    is_on_curve 48439561293906451759052585252797914202762949526041747995844080717082404635286
      36134250956749795798585127919587881956611106672985015071877198253568414405109
    ≡ true
unfolding program
on_curve = refl

abbrev two_stats : Stats
two_stats = record { users = 2; envelopes = 2; path = codes "db"; size_bytes = 9 }

abbrev at : ℕ → Option Stats → Tick
at n result = record { checked_at = n * 1000000000; stats = result; done_at = n * 1000000000 }

abbrev plain : Options
plain = record { snapshot_every = 0; stats_every = 0 }

-- Ticks at the seconds 1, 2, 6, 11 and 12; the call at 11 fails, and is repeated at once.
abbrev earlier : List Tick
earlier = at 11 none ∷ at 6 (some two_stats) ∷ at 2 none ∷ at 1 none ∷ []

abbrev ticks : List Tick
ticks = at 12 none ∷ earlier

four_calls :
    calls plain (codes "db") ticks
    ≡ at 12 none ∷ at 11 none ∷ at 6 (some two_stats) ∷ at 1 none ∷ []
unfolding program
four_calls = refl

abbrev seen : Seen
seen = record {
  version = codes "v1";
  started_at = 0;
  now = 5000000000;
  config = embedded;
  counters = new_collector;
  registry = new;
  driver = answering;
  db = no_rows;
}

abbrev cached : Cache
cached = record { stats_cached = two_stats; stats_at = some 1 }

build_snapshot-with_secrets_example :
    build_snapshot (record seen { config = with_secrets (codes "s") [] embedded }) cached
    ≡ build_snapshot (record seen { config = with_secrets (codes "t") (codes " ") embedded }) cached
unfolding program
build_snapshot-with_secrets_example =
    build_snapshot-with_secrets seen cached (codes "s") [] (codes "t") (codes " ") refl refl

-- A panel on every interface, with a token.
abbrev public_admin : Config
public_admin = record filled { admin = record { bind = codes "0.0.0.0:8081"; token = codes "k" } }

abbrev pub request : Request
request = record {
  method = codes "GET";
  path = codes "/admin";
  authorization = codes "bearer k";
  body = body_eof;
}

abbrev no_settings : AuthSettings
no_settings = record { jwks_url = []; jwks_file = []; jwks_cache_ttl = 0; dev_hs256_secret = [] }

abbrev refusing : Jwt ℕ
refusing = record { peek_kid = λ token. []; parse_with_claims = λ token key_of. parse_error }

abbrev quiet : Circumstances ℕ
quiet = record {
  stale_checked_at = 1;
  refreshed = none;
  refreshed_at = 1;
  unknown_checked_at = 1;
  refetched = none;
  refetched_at = 1;
}

abbrev keyless : Verifier ℕ
keyless = record { keys = []; loaded_at = none; last_unknown_kid_fetch = none }

passes : (serve_panel (codes "k") no_settings refusing quiet request keyless).1 ≡ page
unfolding program
passes = refl

serve_panel-guarded_example :
    (serve_panel (codes "k") no_settings refusing quiet request keyless ≡ (keyless, unauthorized))
    ⊎ Bears (codes "k") (codes "bearer k")
unfolding program
serve_panel-guarded_example =
    serve_panel-guarded refusing quiet no_settings request keyless embedded (decoded public_admin)
      {cfg = public_admin} refl refl

-- A modulus of one byte and the exponent 65537, with a second entry under the same kid and a third
-- that is broken.
abbrev entry : Str → Str → Jwk
entry n e = record {
  kty = codes "RSA";
  kid = codes "k";
  use_of = codes "sig";
  crv = [];
  n = n;
  e = e;
  x = [];
  y = [];
}

abbrev pub entries : List Jwk
entries =
    entry (codes "Aw") (codes "AQAB")
    ∷ entry (codes "_w==") (codes "AQAB")
    ∷ entry [] (codes "AQAB")
    ∷ []

two_keys : parse_jwks (some entries) ≡ some ((codes "k", rsa 255 65537) ∷ [])
unfolding program
two_keys = refl

find_key-parse_jwks_example :
    (find_key (codes "k") ((codes "k", rsa 255 65537) ∷ []) ≡ some (rsa 255 65537))
    ↔ IsLast (codes "k") (rsa 255 65537) entries
find_key-parse_jwks_example = find_key-parse_jwks (codes "k") (rsa 255 65537) entries two_keys

abbrev pub fetched : Circumstances PublicKey
fetched = record {
  stale_checked_at = 1;
  refreshed = none;
  refreshed_at = 1;
  unknown_checked_at = 1;
  refetched = some ((codes "k", rsa 255 65537) ∷ []);
  refetched_at = 1;
}

abbrev remote : AuthSettings
remote = record no_settings { jwks_url = codes "https://id" }

-- A library that finds the kid "k" in a header and refuses the token.
abbrev pub strict : Jwt PublicKey
strict = record { peek_kid = λ token. codes "k"; parse_with_claims = λ token key_of. parse_error }

abbrev pub no_keys : Verifier PublicKey
no_keys = record { keys = []; loaded_at = none; last_unknown_kid_fetch = none }

fetched_keys : All IsEntry (diagnose remote strict fetched (codes "t") no_keys).0.keys
unfolding program
fetched_keys =
    diagnose-IsEntry remote strict fetched (codes "t") no_keys read_failed read_failed no_response
      (responded 200 (some (60, some entries))) refl refl tt

key_arrives :
    (diagnose remote strict fetched (codes "t") no_keys).0.keys ≡ (codes "k", rsa 255 65537) ∷ []
unfolding program
key_arrives = refl

calls-Spaced_example :
    Spaced plain (codes "db") (calls plain (codes "db") ticks)
    × Shown plain
        (codes "db")
        (calls plain (codes "db") ticks)
        (tick plain
          (codes "db")
          (at 12 none)
          seen
          (cache_after plain (codes "db") earlier)).1.storage
calls-Spaced_example = calls-Spaced plain (codes "db") (at 12 none) earlier seen

-- The calls of a frame, of whether the connection can be flushed.
abbrev written : Bool → FrameCalls
written true = record { set_write_deadline = not_supported; writes = true; flush = done }
written false = record { set_write_deadline = not_supported; writes = true; flush = failed }

abbrev encode_version : Snapshot → Option Str
encode_version snap = some snap.version

-- The frame whose flush fails is the last one.
two_frames :
    serve_events encode_version
      (build_snapshot seen (cache_after plain (codes "db") earlier))
      (written true)
      (ticked (build_snapshot seen (cache_after plain (codes "db") earlier)) (written false)
        ∷ ticked (build_snapshot seen (cache_after plain (codes "db") earlier)) (written true)
        ∷ [])
    ≡ (codes "data: " ++ (seen.version ++ 10 ∷ 10 ∷ []))
      ∷ (codes "data: " ++ (seen.version ++ 10 ∷ 10 ∷ []))
      ∷ []
unfolding build_snapshot fails send_payload after_frame write_snapshot_frame event_loop serve_events
two_frames = refl
