-- ===== src/Tests/Documents.antt =====
-- The properties of internal/config at small documents.
use ulsync_server.Prelude.{
  ◌≤◌, ◌<◌, ◌≡◌, ◌↔◌, refl, true, false, none, some, [], ◌∷◌, codes, str_eq, trim_space, ok, err,
}
use ulsync_server.Prelude.Int.{pos, negsuc}
use ulsync_server.Config.{
  Config, embedded, fill_text, fill_number, fill_slice, fill_server, fill_auth, fill_sync,
  apply_defaults,
}
use ulsync_server.Config.Net.{split_host_port, is_loopback_ip, fold_letters, parse_ipv4, parse_ipv6}
use ulsync_server.Config.Origin.{validate_origin}
use ulsync_server.Config.Load.{
  decoded, validate_bind, is_loopback_bind, checks, gather, validate, checked, load,
  invalid_configuration, default_above_max, open_admin,
}
use ulsync_server.Config.Load.Limits.{IsValid, load_iff}
use ulsync_server.Config.Load.Again.{load-parse_query}
use ulsync_server.Config.Redacted.{redacted, mask, copy_slice}
use ulsync_server.Config.Seed.{
  seed, seed_at, seed_base, seed_addresses, seed_bind, with_binds, set_authority, with_hs256,
  seen_hs256, append_hs256,
}
use ulsync_server.Config.Seed.Authority.{Trusts, seed-Trusts}
use ulsync_server.HttpApi.Page.{immediate, parse_query, parse_non_negative_query_int}

unfoldable pub program : Unit {0}
unfolding fill_text fill_number fill_slice fill_server fill_auth fill_sync apply_defaults trim_space
    str_eq split_host_port is_loopback_ip fold_letters validate_origin validate_bind
    is_loopback_bind checks gather validate checked load redacted mask copy_slice seed seed_at
    seed_base seed_addresses seed_bind with_binds set_authority with_hs256 seen_hs256 append_hs256
    parse_query parse_non_negative_query_int parse_ipv4 parse_ipv6
program = tt

-- A document that names a secret, and nothing else.
abbrev pub short : Config
short = record {
  server = record {
    bind = [];
    read_header_timeout = pos 0;
    idle_timeout = pos 0;
    max_body_bytes = pos 0;
  };
  storage = record { driver = []; path = [] };
  origin = [];
  auth = record {
    jwks_url = [];
    jwks_file = [];
    jwks_cache_ttl = pos 0;
    allowed_algs = none;
    audience = none;
    issuer = [];
    dev_hs256_secret = codes "s";
  };
  sync = record {
    max_envelopes_per_push = pos 0;
    pull_limit_default = pos 0;
    pull_limit_max = pos 0;
    live_poll_timeout = pos 0;
    live_heartbeat = pos 0;
  };
  admin = record { bind = []; token = [] };
}

-- It is the embedded document with the secret and without a URL.
abbrev pub filled : Config
filled = record embedded {
  auth = record embedded.auth { jwks_url = []; dev_hs256_secret = codes "s" };
}

pub short_loads : load embedded (decoded short) ≡ ok filled
unfolding program
short_loads = refl

-- Every problem is named at once.
two_problems :
    load embedded (
      decoded (record short {
        sync = record short.sync { pull_limit_max = pos 50 };
        admin = record { bind = codes ":8081"; token = codes " " };
      }))
    ≡ err (invalid_configuration (default_above_max (pos 100) (pos 50) ∷ open_admin ∷ []))
unfolding program
two_problems = refl

-- A negative batch size passes.
negative_batch :
    load embedded
      (decoded (record short { sync = record short.sync { max_envelopes_per_push = negsuc 0 } }))
    ≡ ok (record filled { sync = record filled.sync { max_envelopes_per_push = negsuc 0 } })
unfolding program
negative_batch = refl

loopback : is_loopback_bind (codes "[::ffff:127.0.0.1]:1") ≡ true
unfolding program
loopback = refl

long_form : is_loopback_bind (codes "[0:0::1]:80") ≡ true
unfolding program
long_form = refl

not_loopback : is_loopback_bind (codes "[::2]:80") ≡ false
unfolding program
not_loopback = refl

load_iff_example : (load embedded (decoded short) ≡ ok filled) ↔ (
    (c : Config) × (decoded short ≡ decoded c)
    × (filled ≡ apply_defaults embedded c)
    × IsValid filled)
load_iff_example = load_iff embedded (decoded short) filled

limit_within : (0 < 7) × (7 ≤ 500)
unfolding program
limit_within =
    load-parse_query embedded (decoded short) {c = filled} [] (codes "7") []
      (record { since = 0; limit = 7; mode = immediate }) refl refl

seeded_short :
    seed embedded (some (codes "/srv/data/ulsync.db")) [] (codes " s ") [] []
    ≡ ok (record embedded {
      storage = record { driver = codes "sqlite"; path = codes "/srv/data/ulsync.db" };
      auth = record embedded.auth {
        jwks_url = [];
        dev_hs256_secret = codes "s";
        allowed_algs = some (codes "ES256" ∷ codes "RS256" ∷ codes "HS256" ∷ []);
      };
    })
unfolding program
seeded_short = refl

seed-Trusts_example : Trusts [] (codes "s") (record embedded.auth {
  jwks_url = [];
  dev_hs256_secret = codes "s";
  allowed_algs = some (codes "ES256" ∷ codes "RS256" ∷ codes "HS256" ∷ []);
})
unfolding program
seed-Trusts_example =
    seed-Trusts embedded (some (codes "/srv/data/ulsync.db")) [] (codes " s ") [] [] seeded_short
