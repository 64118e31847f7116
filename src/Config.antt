-- ===== src/Config.antt =====
-- internal/config/config.go: the configuration document, its embedded defaults and how they fill it.
-- A duration is its int64 of nanoseconds, and a slice that is nil is none.
pub mod Duration
pub mod Origin
pub mod Net
pub mod Load
pub mod Seed
pub mod Redacted
use ulsync_server.Prelude.{
  ◌*◌, ℕ, Bool, not, ◌&&◌, Option, none, some, List, [], ◌∷◌, Str, codes, str_eq, trim_space,
  if◌then◌else◌,
}
use ulsync_server.Prelude.Int.{ℤ, pos, eqb_ℤ}

abbrev pub seconds : ℕ → ℤ
seconds n = pos (n * 1000000000)

-- `MaxEnvelopesPerPushCeiling`
abbrev pub max_envelopes_per_push_ceiling : ℤ
max_envelopes_per_push_ceiling = pos 500

pub record Server : Type 0 where
  pub bind : Str
  pub read_header_timeout : ℤ
  pub idle_timeout : ℤ
  pub max_body_bytes : ℤ

pub record Storage : Type 0 where
  pub driver : Str
  pub path : Str

pub record Auth : Type 0 where
  pub jwks_url : Str
  pub jwks_file : Str
  pub jwks_cache_ttl : ℤ
  pub allowed_algs : Option (List Str)
  pub audience : Option (List Str)
  pub issuer : Str
  pub dev_hs256_secret : Str

pub record Sync : Type 0 where
  pub max_envelopes_per_push : ℤ
  pub pull_limit_default : ℤ
  pub pull_limit_max : ℤ
  pub live_poll_timeout : ℤ
  pub live_heartbeat : ℤ

pub record Admin : Type 0 where
  pub bind : Str
  pub token : Str

pub record Config : Type 0 where
  pub server : Server
  pub storage : Storage
  pub origin : Str
  pub auth : Auth
  pub sync : Sync
  pub admin : Admin

-- internal/config/defaults.yaml
abbrev pub embedded : Config
embedded = record {
  server = record {
    bind = codes "0.0.0.0:8080";
    read_header_timeout = seconds 5;
    idle_timeout = seconds 120;
    max_body_bytes = pos 1048576;
  };
  storage = record { driver = codes "sqlite"; path = codes "./data/ulsync.db" };
  origin = [];
  auth = record {
    jwks_url = codes "https://<project>.supabase.co/auth/v1/.well-known/jwks.json";
    jwks_file = [];
    jwks_cache_ttl = seconds 600;
    allowed_algs = some (codes "ES256" ∷ codes "RS256" ∷ []);
    audience = some [];
    issuer = [];
    dev_hs256_secret = [];
  };
  sync = record {
    max_envelopes_per_push = pos 500;
    pull_limit_default = pos 100;
    pull_limit_max = pos 500;
    live_poll_timeout = seconds 55;
    live_heartbeat = seconds 15;
  };
  admin = record { bind = codes "127.0.0.1:8081"; token = [] };
}

abbrev pub is_blank : Str → Bool
is_blank s = str_eq (trim_space s) []

-- The zero value of a field gives way to the default.
unfoldable pub fill_text : Str → Str → Str
fill_text standard s = if str_eq s [] then standard else s

unfoldable pub fill_number : ℤ → ℤ → ℤ
fill_number standard n = if eqb_ℤ n (pos 0) then standard else n

unfoldable pub fill_slice : Option (List Str) → Option (List Str) → Option (List Str)
fill_slice standard none = standard
fill_slice standard (some xs) = some xs

-- `applyDefaults`, section by section. The placeholder URL is left out if there is a secret or a file.
unfoldable pub fill_server : Server → Server → Server
unfolding fill_text fill_number
fill_server d s = record {
  bind = fill_text d.bind s.bind;
  read_header_timeout = fill_number d.read_header_timeout s.read_header_timeout;
  idle_timeout = fill_number d.idle_timeout s.idle_timeout;
  max_body_bytes = fill_number d.max_body_bytes s.max_body_bytes;
}

unfoldable pub fill_auth : Auth → Auth → Auth
unfolding fill_number fill_slice
fill_auth d a = record a {
  jwks_url =
      if str_eq a.jwks_url [] && is_blank a.dev_hs256_secret && is_blank a.jwks_file
      then d.jwks_url
      else a.jwks_url;
  jwks_cache_ttl = fill_number d.jwks_cache_ttl a.jwks_cache_ttl;
  allowed_algs = fill_slice d.allowed_algs a.allowed_algs;
  audience = fill_slice d.audience a.audience;
}

unfoldable pub fill_sync : Sync → Sync → Sync
unfolding fill_number
fill_sync d s = record {
  max_envelopes_per_push = fill_number d.max_envelopes_per_push s.max_envelopes_per_push;
  pull_limit_default = fill_number d.pull_limit_default s.pull_limit_default;
  pull_limit_max = fill_number d.pull_limit_max s.pull_limit_max;
  live_poll_timeout = fill_number d.live_poll_timeout s.live_poll_timeout;
  live_heartbeat = fill_number d.live_heartbeat s.live_heartbeat;
}

unfoldable pub apply_defaults : Config → Config → Config
unfolding fill_server fill_auth fill_sync fill_text
apply_defaults d c = record {
  server = fill_server d.server c.server;
  storage = record {
    driver = fill_text d.storage.driver c.storage.driver;
    path = fill_text d.storage.path c.storage.path;
  };
  origin = c.origin;
  auth = fill_auth d.auth c.auth;
  sync = fill_sync d.sync c.sync;
  admin = record c.admin { bind = fill_text d.admin.bind c.admin.bind };
}
