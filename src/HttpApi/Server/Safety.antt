-- ===== src/HttpApi/Server/Safety.antt =====
-- What requests to internal/httpapi/server.go may change.
use ulsync_server.Prelude.{
  ◌≡◌, refl, ◌⊎◌, inl, inr, Bool, Option, none, some, List, [], ◌∷◌, Str, ok, err, Result,
  Bool-cases, All, length,
}
use ulsync_server.Prelude.Int.{ℤ, pos, ltb_ℤ}
use ulsync_server.Store.Envelope.{Envelope}
use ulsync_server.Store.Db.{Db, Driver, StoreError}
use ulsync_server.Store.Db.Valid as Tables
use ulsync_server.Store.Upsert.{upsert_many}
use ulsync_server.Store.Upsert.Validity.{upsert_many-IsValid}
use ulsync_server.Live.{Registry, subscribe}
use ulsync_server.Live.Valid as Waiters
use ulsync_server.HttpApi.Push.{
  Response, WireEnvelope, Decoded, too_large, malformed, decoded, PushBody, prepare, respond,
  store_batch, refused, push_handler,
}
use ulsync_server.HttpApi.Page.{LiveMode, immediate, poll, sse, Param, PullQuery, parse_query}
use ulsync_server.HttpApi.Pull.{Meets, around, serve_query, pull_handler}
use ulsync_server.HttpApi.Origin.{OriginBody, require_origin}
use ulsync_server.HttpApi.Origin.Gate.{require_origin-envelopes}
use ulsync_server.HttpApi.Server.{
  Settings, Request, Node, RootRoute, to_health, to_v1, root_redirect, root_method, root_missing,
  V1Route, to_whoami, to_sync, v1_redirect, v1_method, v1_missing, SyncRoute, to_hello, to_push,
  to_diff, to_pull, sync_method, sync_missing, require_bearer, root_route, v1_route, sync_route,
  after_push, serve_sync, serve_gated, serve_v1, serve_bearer, serve_root, serve,
}

-- The tables after a push are those before, or those that UpsertMany leaves.
abbrev pub Written : Driver → Str → Db → Db → Type 0
Written d u db db' = (db' ≡ db) ⊎ ((es : List Envelope) × (db' ≡ (upsert_many d u es db).0))

respond-db :
    (now : ℤ) (es : List Envelope) (r : Db × Result StoreError (List Bool))
    → (respond now es r).db ≡ r.0
unfolding respond refused
respond-db now es (db, err e) = refl
respond-db now es (db, ok applied) = refl

module _ (d : Driver) (u : Str) (now : ℤ) (db : Db) where
  store_batch-Written :
      (r : Result PushBody (List Envelope)) → Written d u db (store_batch d u now db r).db
  unfolding store_batch refused
  store_batch-Written (err body) = inl refl
  store_batch-Written (ok es) = inr (es, respond-db now es (upsert_many d u es db))

  pub push_handler-Written :
      (max : ℤ) (request : Decoded WireEnvelope)
      → Written d u db (push_handler d max u now request db).db
  unfolding push_handler refused
  push_handler-Written max too_large = inl refl
  push_handler-Written max malformed = inl refl
  push_handler-Written max (decoded []) = inl refl
  push_handler-Written max (decoded (w ∷ ws)) =
      elim (Bool-cases (ltb_ℤ max (pos (length (w ∷ ws))))) [
        | inl over ↦ inl (rw over refl)
        | inr fits ↦ rw fits (store_batch-Written (prepare [] (w ∷ ws)))
      ]

-- The tables and the registry are well formed.
pub record IsValid (node : Node) : Type 0 where
  pub tables : Tables.IsValid node.db
  pub waiters : Waiters.IsValid node.registry

-- What others do to the registry during a request keeps it well formed.
abbrev pub Fair : Request → Type 0
Fair r = (q : Registry) → Waiters.IsValid q → Waiters.IsValid (r.meets.others q)

pub Written-IsValid :
    (d : Driver) (u : Str) (db db' : Db)
    → Written d u db db'
    → Tables.IsValid db
    → Tables.IsValid db'
Written-IsValid d u db db' (inl e) v = rw e v
Written-IsValid d u db db' (inr (es, e)) v = rw e (upsert_many-IsValid d u es db v)

pub same_tables :
    (db db' : Db)
    → db'.envelopes ≡ db.envelopes
    → db'.users ≡ db.users
    → Tables.IsValid db
    → Tables.IsValid db'
same_tables db db' e f v = record {
  apart = rw e v.apart;
  numbered = rw (e, f) v.numbered;
  counted = λ u. rw f (v.counted u);
}

around-IsValid :
    (mode : LiveMode) (u : Str) (m : Meets) (r : Registry)
    → ((q : Registry) → Waiters.IsValid q → Waiters.IsValid (m.others q))
    → Waiters.IsValid r
    → Waiters.IsValid (around mode u m r)
unfolding around
around-IsValid immediate u m r fair v = fair r v
around-IsValid poll u m r fair v =
    Waiters.unsubscribe-IsValid (some (subscribe u r).1) (m.others (subscribe u r).0)
      (fair (subscribe u r).0 (Waiters.subscribe-IsValid u r v))
around-IsValid sse u m r fair v =
    Waiters.unsubscribe-IsValid (some (subscribe u r).1) (m.others (subscribe u r).0)
      (fair (subscribe u r).0 (Waiters.subscribe-IsValid u r v))

serve_query-IsValid :
    (u : Str) (m : Meets) (r : Registry) (q : Result Param PullQuery)
    → ((s : Registry) → Waiters.IsValid s → Waiters.IsValid (m.others s))
    → Waiters.IsValid r
    → Waiters.IsValid (serve_query u m r q).0
unfolding serve_query
serve_query-IsValid u m r (err p) fair v = v
serve_query-IsValid u m r (ok q) fair v = around-IsValid q.mode u m r fair v

module _ (cfg : Settings) (r : Request) (fair : Fair r) where
  serve_sync-IsValid :
      (u o : Str) (route : SyncRoute) (node : Node)
      → IsValid node
      → IsValid (serve_sync cfg u o r route node).0
  unfolding serve_sync after_push pull_handler
  serve_sync-IsValid u o to_hello node v = v
  serve_sync-IsValid u o to_push node v =
      let p = push_handler r.driver cfg.max_envelopes_per_push u r.now r.push node.db in
      record {
        tables =
            Written-IsValid r.driver u node.db p.db
              (push_handler-Written r.driver u r.now node.db cfg.max_envelopes_per_push r.push)
              v.tables;
        waiters = elim (Bool-cases p.notified) [
          | inl notifies ↦ simp notifies (Waiters.notify-IsValid u node.registry v.waiters)
          | inr silent ↦ simp silent v.waiters
        ];
      }
  serve_sync-IsValid u o to_diff node v = v
  serve_sync-IsValid u o to_pull node v = record {
    tables = v.tables;
    waiters =
        serve_query-IsValid u r.meets node.registry
          (parse_query cfg.pull_limit_default cfg.pull_limit_max r.since r.limit r.live) fair
          v.waiters;
  }
  serve_sync-IsValid u o sync_method node v = v
  serve_sync-IsValid u o sync_missing node v = v

  serve_gated-IsValid :
      (u : Str) (registry : Registry) (g : Db × Result (Response OriginBody) Str)
      → Tables.IsValid g.0
      → Waiters.IsValid registry
      → IsValid (serve_gated cfg u r registry g).0
  unfolding serve_gated
  serve_gated-IsValid u registry (db, err e) t w = record { tables = t; waiters = w }
  serve_gated-IsValid u registry (db, ok o) t w =
      serve_sync-IsValid u o (sync_route r.method r.path) (record { db = db; registry = registry })
        (record { tables = t; waiters = w })

  serve_v1-IsValid :
      (u : Str) (route : V1Route) (node : Node)
      → IsValid node
      → IsValid (serve_v1 cfg u r route node).0
  unfolding serve_v1
  serve_v1-IsValid u to_whoami node v = v
  serve_v1-IsValid u to_sync node v =
      let g = require_origin r.driver cfg.origin r.method r.path r.ulsync_origin node.db in
      let e =
        require_origin-envelopes r.driver cfg.origin r.method r.path r.ulsync_origin node.db in
      serve_gated-IsValid u node.registry g (same_tables node.db g.0 e.0 e.1 v.tables) v.waiters
  serve_v1-IsValid u v1_redirect node v = v
  serve_v1-IsValid u v1_method node v = v
  serve_v1-IsValid u v1_missing node v = v

  serve_bearer-IsValid :
      (node : Node) (user : Option Str) → IsValid node → IsValid (serve_bearer cfg r node user).0
  unfolding serve_bearer
  serve_bearer-IsValid node none v = v
  serve_bearer-IsValid node (some u) v = serve_v1-IsValid u (v1_route r.method r.path) node v

  serve_root-IsValid :
      (verify : Str → Option Str) (route : RootRoute) (node : Node)
      → IsValid node
      → IsValid (serve_root verify cfg r route node).0
  unfolding serve_root
  serve_root-IsValid verify to_health node v = v
  serve_root-IsValid verify to_v1 node v =
      serve_bearer-IsValid node (require_bearer verify r.authorization) v
  serve_root-IsValid verify root_redirect node v = v
  serve_root-IsValid verify root_method node v = v
  serve_root-IsValid verify root_missing node v = v

  -- Every request leaves well-formed tables and a well-formed registry.
  pub serve-IsValid :
      (verify : Str → Option Str) (node : Node) → IsValid node → IsValid (serve verify cfg r node).0
  unfolding serve
  serve-IsValid verify node = serve_root-IsValid verify (root_route r.method r.path) node

-- One request after another.
unfoldable pub serve_all : (Str → Option Str) → Settings → List Request → Node → Node
serve_all verify cfg [] node = node
serve_all verify cfg (r ∷ rs) node = serve_all verify cfg rs (serve verify cfg r node).0

-- Over any sequence of requests the tables and the registry stay well formed, if what others do to
-- the registry during each request keeps it so.
pub serve_all-IsValid :
    (verify : Str → Option Str) (cfg : Settings) (rs : List Request) (node : Node)
    → All Fair rs
    → IsValid node
    → IsValid (serve_all verify cfg rs node)
unfolding serve_all
serve_all-IsValid verify cfg [] node f v = v
serve_all-IsValid verify cfg (r ∷ rs) node f v =
    serve_all-IsValid verify cfg rs (serve verify cfg r node).0 f.1
      (serve-IsValid cfg r f.0 verify node v)
