-- ===== src/HttpApi/Server.antt =====
-- internal/httpapi/server.go: the routes of the process over its tables and its registry. The token
-- check of internal/auth is an argument, `verify`: the subject of a token, or none. The cap on POST
-- bodies shows as the outcome `too_large` of decoding one. Paths are in the clean form that
-- net/http gives them.
pub mod Safety
pub mod Users
pub mod Tables
pub mod Growth
use ulsync_server.Prelude.{
  trim_space, ℕ, Bool, true, false, not, ◌&&◌, ◌||◌, Option, none, some, List, [], ◌∷◌, Str, codes,
  str_eq, leb, ◌==◌, ◌+◌, Result, ok, err, if◌then◌else◌,
}
use ulsync_server.Prelude.Int.{ℤ}
use ulsync_server.Store.Db.{Db, Driver}
use ulsync_server.Live.{Registry, notify}
use ulsync_server.HttpApi.Push.{Response, WireEnvelope, Decoded, PushBody, Pushed, push_handler}
use ulsync_server.HttpApi.Diff.{DiffItem, DiffBody, diff_handler}
use ulsync_server.HttpApi.Origin.{OriginBody, HelloResponse, require_origin, hello_handler}
use ulsync_server.HttpApi.Pull.{Meets, Served, pull_handler}

-- The settings that the routes read.
pub record Settings : Type 0 where
  pub origin : Str
  pub max_envelopes_per_push : ℤ
  pub pull_limit_default : ℕ
  pub pull_limit_max : ℕ

-- A request, with what decoding its body gives, the answers of the driver to its handler, the result
-- of `Stats`, the clock, and what it meets if it is a pull.
pub record Request : Type 0 where
  pub method : Str
  pub path : Str
  pub authorization : Str
  pub ulsync_origin : Str
  pub since : Str
  pub limit : Str
  pub live : Str
  pub push : Decoded WireEnvelope
  pub diff : Decoded DiffItem
  pub driver : Driver
  pub stats : Option (Str × ℕ)
  pub now : ℤ
  pub meets : Meets

-- The state that requests share.
pub record Node : Type 0 where
  pub db : Db
  pub registry : Registry

pub data HealthBody : Type 0 where
  storage_unavailable : HealthBody
  health_response : Str → ℕ → HealthBody

-- The responses: those of the handlers, and those of the mux.
pub data Reply : Type 0 where
  unauthorized redirected not_found method_not_allowed : Reply
  whoami_reply : Str → Reply
  health_reply : Response HealthBody → Reply
  origin_reply : Response OriginBody → Reply
  hello_reply : Response HelloResponse → Reply
  push_reply : Response PushBody → Reply
  diff_reply : Response DiffBody → Reply
  pull_reply : Served → Reply

-- `strings.Cut` at the first space
unfoldable pub cut_space : Str → Option (Str × Str)
cut_space [] = none
cut_space (c ∷ s) =
    if c == 32
    then some ([], s)
    else elim (cut_space s) [ none ↦ none | some (before, after) ↦ some (c ∷ before, after) ]

unfoldable pub to_lower : Str → Str
to_lower [] = []
to_lower (c ∷ s) = (if leb b'A' c && leb c b'Z' then c + 32 else c) ∷ to_lower s

-- `requireBearer`: the user, or none for 401. No character beyond ASCII folds to one of "Bearer".
unfoldable pub require_bearer : (Str → Option Str) → Str → Option Str
unfolding cut_space to_lower trim_space
require_bearer verify authorization = elim (cut_space authorization) [
  | none ↦ none
  | some (scheme, token) ↦
      if not (str_eq (to_lower scheme) (codes "bearer")) || str_eq (trim_space token) []
      then none
      else verify (trim_space token)
]

-- `healthHandler`; version and start time are constants of the process.
unfoldable pub health_handler : Option (Str × ℕ) → Response HealthBody
health_handler none = record { status = 503; body = storage_unavailable }
health_handler (some (path, size)) = record { status = 200; body = health_response path size }

-- A pattern "GET …" matches HEAD too.
unfoldable pub is_get : Str → Bool
is_get method = str_eq method (codes "GET") || str_eq method (codes "HEAD")

unfoldable pub has_prefix : Str → Str → Bool
has_prefix s [] = true
has_prefix [] (p ∷ prefix) = false
has_prefix (c ∷ s) (p ∷ prefix) = c == p && has_prefix s prefix

-- The patterns of the three muxes of `New`, with the redirect to a subtree.
pub data RootRoute : Type 0 where
  to_health to_v1 root_redirect root_method root_missing : RootRoute

pub data V1Route : Type 0 where
  to_whoami to_sync v1_redirect v1_method v1_missing : V1Route

pub data SyncRoute : Type 0 where
  to_hello to_push to_diff to_pull sync_method sync_missing : SyncRoute

unfoldable pub root_route : Str → Str → RootRoute
unfolding is_get has_prefix
root_route method path =
    if str_eq path (codes "/health")
    then if is_get method then to_health else root_method
    else if has_prefix path (codes "/v1/")
    then to_v1
    else if str_eq path (codes "/v1")
    then root_redirect
    else root_missing

unfoldable pub v1_route : Str → Str → V1Route
unfolding is_get has_prefix
v1_route method path =
    if str_eq path (codes "/v1/whoami")
    then if is_get method then to_whoami else v1_method
    else if has_prefix path (codes "/v1/sync/")
    then to_sync
    else if str_eq path (codes "/v1/sync")
    then v1_redirect
    else v1_missing

unfoldable pub sync_route : Str → Str → SyncRoute
unfolding is_get
sync_route method path =
    if str_eq path (codes "/v1/sync/hello")
    then if is_get method then to_hello else sync_method
    else if str_eq path (codes "/v1/sync/push")
    then if str_eq method (codes "POST") then to_push else sync_method
    else if str_eq path (codes "/v1/sync/diff")
    then if str_eq method (codes "POST") then to_diff else sync_method
    else if str_eq path (codes "/v1/sync/pull")
    then if is_get method then to_pull else sync_method
    else sync_missing

-- The registry after a push: `Notify` for the user if something was applied.
unfoldable pub after_push : Str → Registry → Pushed → Node × Reply
after_push user_id registry p = (
  record { db = p.db; registry = if p.notified then notify user_id registry else registry },
  push_reply p.response,
)

-- The sync routes, for the user and the origin of the store.
unfoldable pub serve_sync : Settings → Str → Str → Request → SyncRoute → Node → Node × Reply
unfolding after_push
serve_sync cfg user_id origin r to_hello node =
    (node, hello_reply (hello_handler origin user_id r.now))
serve_sync cfg user_id origin r to_push node =
    after_push user_id node.registry
      (push_handler r.driver cfg.max_envelopes_per_push user_id r.now r.push node.db)
serve_sync cfg user_id origin r to_diff node =
    (node, diff_reply (diff_handler r.driver user_id r.now r.diff node.db))
serve_sync cfg user_id origin r to_pull node =
    let (registry, served) =
      pull_handler cfg.pull_limit_default cfg.pull_limit_max user_id r.since r.limit r.live r.meets
        node.registry in
    (record node { registry = registry }, pull_reply served)
serve_sync cfg user_id origin r sync_method node = (node, method_not_allowed)
serve_sync cfg user_id origin r sync_missing node = (node, not_found)

-- Behind the gate.
unfoldable pub serve_gated :
    Settings → Str → Request → Registry → Db × Result (Response OriginBody) Str → Node × Reply
unfolding serve_sync sync_route
serve_gated cfg user_id r registry (db, err response) =
    (record { db = db; registry = registry }, origin_reply response)
serve_gated cfg user_id r registry (db, ok origin) =
    serve_sync cfg user_id origin r (sync_route r.method r.path)
      (record { db = db; registry = registry })

-- The protected routes, for the user of the token.
unfoldable pub serve_v1 : Settings → Str → Request → V1Route → Node → Node × Reply
unfolding serve_gated
serve_v1 cfg user_id r to_whoami node = (node, whoami_reply user_id)
serve_v1 cfg user_id r to_sync node =
    serve_gated cfg user_id r node.registry
      (require_origin r.driver cfg.origin r.method r.path r.ulsync_origin node.db)
serve_v1 cfg user_id r v1_redirect node = (node, redirected)
serve_v1 cfg user_id r v1_method node = (node, method_not_allowed)
serve_v1 cfg user_id r v1_missing node = (node, not_found)

unfoldable pub serve_bearer : Settings → Request → Node → Option Str → Node × Reply
unfolding serve_v1 v1_route
serve_bearer cfg r node none = (node, unauthorized)
serve_bearer cfg r node (some user_id) = serve_v1 cfg user_id r (v1_route r.method r.path) node

unfoldable pub serve_root :
    (Str → Option Str) → Settings → Request → RootRoute → Node → Node × Reply
unfolding serve_bearer health_handler require_bearer
serve_root verify cfg r to_health node = (node, health_reply (health_handler r.stats))
serve_root verify cfg r to_v1 node = serve_bearer cfg r node (require_bearer verify r.authorization)
serve_root verify cfg r root_redirect node = (node, redirected)
serve_root verify cfg r root_method node = (node, method_not_allowed)
serve_root verify cfg r root_missing node = (node, not_found)

-- The handler of `New` on one request.
unfoldable pub serve : (Str → Option Str) → Settings → Request → Node → Node × Reply
unfolding serve_root root_route
serve verify cfg r node = serve_root verify cfg r (root_route r.method r.path) node
