-- ===== src/Config/Seed.antt =====
-- internal/config/seed.go: the document of the first run. The path of the tables is an argument, as
-- `filepath.Abs`, which may fail, depends on the working directory.
pub mod Loads
pub mod Authority
use ulsync_server.Prelude.{
  ◌≡◌, refl, Bool, true, false, not, ◌&&◌, ◌||◌, Option, none, some, List, [], ◌∷◌, Str, codes,
  str_eq, trim_space, Result, ok, err, ◌>>=◌, if◌then◌else◌,
}
use ulsync_server.Config.{Auth, Config, is_blank}
use ulsync_server.Config.Load.{
  Problem, Field, server_bind, admin_bind, validate_bind, is_loopback_bind,
}

abbrev pub alg_hs256 : Str
alg_hs256 = codes "HS256"

pub data SeedError : Type 0 where
  not_one_authority no_absolute_path open_admin_bind : SeedError
  refused_bind : Problem → SeedError

unfoldable pub seen_hs256 : List Str → Bool
seen_hs256 [] = false
seen_hs256 (alg ∷ algs) = str_eq alg alg_hs256 || seen_hs256 algs

unfoldable pub append_hs256 : List Str → List Str
append_hs256 [] = alg_hs256 ∷ []
append_hs256 (alg ∷ algs) = alg ∷ append_hs256 algs

-- `withHS256`
unfoldable pub with_hs256 : Option (List Str) → List Str
unfolding seen_hs256 append_hs256
with_hs256 none = alg_hs256 ∷ []
with_hs256 (some algs) = if seen_hs256 algs then algs else append_hs256 algs

-- The address in place of the usual one, if one is given.
unfoldable pub seed_bind : Field → Str → Str → Result SeedError Str
unfolding validate_bind
seed_bind field usual given =
    if is_blank given then ok usual else elim (validate_bind field (trim_space given)) [
      | some p ↦ err (refused_bind p)
      | none ↦ ok (trim_space given)
    ]

-- The authority: a URL of keys, or else the secret.
unfoldable pub set_authority : Str → Str → Auth → Auth
unfolding with_hs256
set_authority jwks_url shared_secret a =
    if str_eq jwks_url []
    then record a {
      jwks_url = [];
      dev_hs256_secret = shared_secret;
      allowed_algs = some (with_hs256 a.allowed_algs);
    }
    else record a { jwks_url = jwks_url; dev_hs256_secret = [] }

-- The fields that `Seed` sets before the addresses are settled.
unfoldable pub seed_base : Config → Str → Config
seed_base defaults path = record defaults {
  origin = [];
  server = record defaults.server { bind = codes "0.0.0.0:8080" };
  storage = record { driver = codes "sqlite"; path = path };
  admin = record { bind = codes "127.0.0.1:8081"; token = [] };
}

unfoldable pub with_binds : Str → Str → Config → Result SeedError Config
with_binds server_address admin_address c =
    if not (is_loopback_bind admin_address) && is_blank c.admin.token
    then err open_admin_bind
    else ok (record c {
      server = record c.server { bind = server_address };
      admin = record c.admin { bind = admin_address };
    })

unfoldable pub seed_addresses : Config → Str → Str → Result SeedError Config
unfolding seed_bind with_binds
seed_addresses c server_given admin_given = do
  server_address ← seed_bind server_bind c.server.bind server_given
  admin_address ← seed_bind admin_bind c.admin.bind admin_given
  with_binds server_address admin_address c

unfoldable pub seed_at :
    Config
    → Option Str
    → (jwks_url shared_secret server_given admin_given : Str) → Result SeedError Config
unfolding seed_base seed_addresses set_authority
seed_at defaults none jwks_url shared_secret server_given admin_given = err no_absolute_path
seed_at defaults (some path) jwks_url shared_secret server_given admin_given = do
  c ← seed_addresses (seed_base defaults path) server_given admin_given
  ok (record c { auth = set_authority jwks_url shared_secret c.auth })

-- `Seed`
unfoldable pub seed :
    Config
    → Option Str
    → (jwks_url shared_secret server_given admin_given : Str) → Result SeedError Config
unfolding seed_at
seed defaults path jwks_url shared_secret server_given admin_given =
    if is_blank jwks_url && is_blank shared_secret
      || not (is_blank jwks_url) && not (is_blank shared_secret)
    then err not_one_authority
    else seed_at defaults path (trim_space jwks_url) (trim_space shared_secret) server_given
        admin_given
