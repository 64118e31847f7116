-- ===== src/Config/Load/Again.antt =====
-- A loaded configuration that is read back as it is loads to itself, and bounds the pages of a pull.
use ulsync_server.Prelude.{◌≤◌, ◌<◌, ◌≡◌, inl, inr, refl, sym, subst, Str, arith, ok, Option-cases}
use ulsync_server.Prelude.Int.{ℤ, pos_part}
use ulsync_server.Config.{
  Config, Auth, Server, Sync, apply_defaults, fill_server, fill_auth, fill_sync, fill_text,
  fill_number, fill_slice,
}
use ulsync_server.Config.Load.{Document, decoded, load}
use ulsync_server.Config.Load.Limits.{IsValid, load-ok, load_valid}
use ulsync_server.HttpApi.Page.{PullQuery, parse_query}
use ulsync_server.HttpApi.Page.Query.{parse_query-limit}

fill_text-again : (d s : Str) → fill_text d (fill_text d s) ≡ fill_text d s
unfolding fill_text
fill_text-again d s = ground arith

fill_number-again : (d n : ℤ) → fill_number d (fill_number d n) ≡ fill_number d n
unfolding fill_number
fill_number-again d n = ground arith

fill_auth-again : (d a : Auth) → fill_auth d (fill_auth d a) ≡ fill_auth d a
unfolding fill_auth fill_slice
fill_auth-again d a = elim (Option-cases a.allowed_algs) [
  | inl x ↦ elim (Option-cases a.audience) [
    | inl y ↦ ground (arith, x, y, fill_number-again d.jwks_cache_ttl a.jwks_cache_ttl)
    | inr (q, y) ↦ ground (arith, x, y, fill_number-again d.jwks_cache_ttl a.jwks_cache_ttl)
  ]
  | inr (p, x) ↦ elim (Option-cases a.audience) [
    | inl y ↦ ground (arith, x, y, fill_number-again d.jwks_cache_ttl a.jwks_cache_ttl)
    | inr (q, y) ↦ ground (arith, x, y, fill_number-again d.jwks_cache_ttl a.jwks_cache_ttl)
  ]
]

fill_server-again : (d s : Server) → fill_server d (fill_server d s) ≡ fill_server d s
unfolding fill_server
fill_server-again d s =
    rw
      (
        fill_text-again d.bind s.bind,
        fill_number-again d.read_header_timeout s.read_header_timeout,
        fill_number-again d.idle_timeout s.idle_timeout,
        fill_number-again d.max_body_bytes s.max_body_bytes,
      )
      refl

fill_sync-again : (d s : Sync) → fill_sync d (fill_sync d s) ≡ fill_sync d s
unfolding fill_sync
fill_sync-again d s =
    rw
      (
        fill_number-again d.max_envelopes_per_push s.max_envelopes_per_push,
        fill_number-again d.pull_limit_default s.pull_limit_default,
        fill_number-again d.pull_limit_max s.pull_limit_max,
        fill_number-again d.live_poll_timeout s.live_poll_timeout,
        fill_number-again d.live_heartbeat s.live_heartbeat,
      )
      refl

apply_defaults-again : (d c : Config) → apply_defaults d (apply_defaults d c) ≡ apply_defaults d c
unfolding apply_defaults
apply_defaults-again d c =
    rw
      (
        fill_server-again d.server c.server,
        fill_auth-again d.auth c.auth,
        fill_sync-again d.sync c.sync,
        fill_text-again d.storage.driver c.storage.driver,
        fill_text-again d.storage.path c.storage.path,
        fill_text-again d.admin.bind c.admin.bind,
      )
      refl

-- A loaded configuration that is read back as it is loads to itself.
pub load-again :
    (defaults : Config) (doc : Document) {c : Config}
    → load defaults doc ≡ ok c
    → load defaults (decoded c) ≡ ok c
load-again defaults doc {c} h =
    let (c', e, f, v) = load-ok defaults doc h in
    let same : apply_defaults defaults c ≡ c = rw (f, apply_defaults-again defaults c') refl in
    subst (λ x. load defaults (decoded c) ≡ ok x) same
      (load_valid defaults c (subst IsValid (sym same) v))

-- Under a configuration that Load accepted, the limit of every accepted query is at least 1 and at
-- most the configured maximum.
pub load-parse_query :
    (defaults : Config) (doc : Document) {c : Config} (since limit live : Str) (q : PullQuery)
    → load defaults doc ≡ ok c
    → parse_query
        (pos_part c.sync.pull_limit_default)
        (pos_part c.sync.pull_limit_max)
        since
        limit
        live
      ≡ ok q
    → (0 < q.limit) × (q.limit ≤ pos_part c.sync.pull_limit_max)
load-parse_query defaults doc {c} since limit live q h e =
    let (c', e', f, v) = load-ok defaults doc h in
    parse_query-limit _ _ since limit live q (ground (arith, v.page, v.page_max)) e
