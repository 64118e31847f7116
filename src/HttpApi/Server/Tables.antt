-- ===== src/HttpApi/Server/Tables.antt =====
-- How the routes of internal/httpapi/server.go reach the tables: the gate of the origin, and the push.
use ulsync_server.Prelude.{◌≡◌, refl, Option, none, some, Str, ok, err, Result}
use ulsync_server.Store.Db.{Db}
use ulsync_server.Live.{Registry}
use ulsync_server.HttpApi.Push.{Response, push_handler}
use ulsync_server.HttpApi.Origin.{OriginBody, require_origin}
use ulsync_server.HttpApi.Origin.Gate.{require_origin-envelopes}
use ulsync_server.HttpApi.Server.{
  Settings, Request, Node, RootRoute, to_health, to_v1, root_redirect, root_method, root_missing,
  V1Route, to_whoami, to_sync, v1_redirect, v1_method, v1_missing, SyncRoute, to_hello, to_push,
  to_diff, to_pull, sync_method, sync_missing, require_bearer, root_route, v1_route, sync_route,
  after_push, serve_sync, serve_gated, serve_v1, serve_bearer, serve_root, serve,
}

-- A relation that holds of tables with the same rows and counters and of the tables around a push of
-- the user of the token, and that composes, holds of the tables around every request.
module _ {ℓ} (R : Db → Db → Type ℓ) (verify : Str → Option Str) (cfg : Settings) (r : Request)
    (same : (a b : Db) → b.envelopes ≡ a.envelopes → b.users ≡ a.users → R a b)
    (pushed : (u : Str)
      → require_bearer verify r.authorization ≡ some u
      → (a : Db) → R a (push_handler r.driver cfg.max_envelopes_per_push u r.now r.push a).db)
    (trans : (a b c : Db) → R a b → R b c → R a c) where
  sync_tables :
      (u : Str)
      → require_bearer verify r.authorization ≡ some u
      → (o : Str) (route : SyncRoute) (node : Node)
      → R node.db (serve_sync cfg u o r route node).0.db
  unfolding serve_sync after_push
  sync_tables u h o to_hello node = same node.db node.db refl refl
  sync_tables u h o to_push node = pushed u h node.db
  sync_tables u h o to_diff node = same node.db node.db refl refl
  sync_tables u h o to_pull node = same node.db node.db refl refl
  sync_tables u h o sync_method node = same node.db node.db refl refl
  sync_tables u h o sync_missing node = same node.db node.db refl refl

  gated_tables :
      (u : Str)
      → require_bearer verify r.authorization ≡ some u
      → (registry : Registry) (g : Db × Result (Response OriginBody) Str)
      → R g.0 (serve_gated cfg u r registry g).0.db
  unfolding serve_gated
  gated_tables u h registry (db, err e) = same db db refl refl
  gated_tables u h registry (db, ok o) =
      sync_tables u h o (sync_route r.method r.path) (record { db = db; registry = registry })

  v1_tables :
      (u : Str)
      → require_bearer verify r.authorization ≡ some u
      → (route : V1Route) (node : Node) → R node.db (serve_v1 cfg u r route node).0.db
  unfolding serve_v1
  v1_tables u h to_whoami node = same node.db node.db refl refl
  v1_tables u h to_sync node =
      let g = require_origin r.driver cfg.origin r.method r.path r.ulsync_origin node.db in
      let e =
        require_origin-envelopes r.driver cfg.origin r.method r.path r.ulsync_origin node.db in
      trans node.db g.0 (serve_gated cfg u r node.registry g).0.db (same node.db g.0 e.0 e.1)
        (gated_tables u h node.registry g)
  v1_tables u h v1_redirect node = same node.db node.db refl refl
  v1_tables u h v1_method node = same node.db node.db refl refl
  v1_tables u h v1_missing node = same node.db node.db refl refl

  bearer_tables :
      (node : Node) (user : Option Str)
      → require_bearer verify r.authorization ≡ user
      → R node.db (serve_bearer cfg r node user).0.db
  unfolding serve_bearer
  bearer_tables node none h = same node.db node.db refl refl
  bearer_tables node (some u) h = v1_tables u h (v1_route r.method r.path) node

  root_tables :
      (route : RootRoute) (node : Node) → R node.db (serve_root verify cfg r route node).0.db
  unfolding serve_root
  root_tables to_health node = same node.db node.db refl refl
  root_tables to_v1 node = bearer_tables node (require_bearer verify r.authorization) refl
  root_tables root_redirect node = same node.db node.db refl refl
  root_tables root_method node = same node.db node.db refl refl
  root_tables root_missing node = same node.db node.db refl refl

  pub serve_tables : (node : Node) → R node.db (serve verify cfg r node).0.db
  unfolding serve
  serve_tables node = root_tables (root_route r.method r.path) node
