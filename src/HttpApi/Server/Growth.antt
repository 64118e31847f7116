-- ===== src/HttpApi/Server/Growth.antt =====
-- What a request to internal/httpapi/server.go may do to the rows of a user, as a cursor sees it.
use ulsync_server.Prelude.{refl, sym, subst, inl, inr, Option, Str}
use ulsync_server.Prelude.Int.{ℤ}
use ulsync_server.Store.Db.{Db, Driver}
use ulsync_server.Store.Db.Valid.{IsValid}
use ulsync_server.Store.Upsert.Grows.{Grows, Grows-same, Grows-trans, apply_all-Grows}
use ulsync_server.HttpApi.Server.{Settings, Request, Node, serve}
use ulsync_server.HttpApi.Push.{push_handler, refused, Pushed, WireEnvelope, Decoded}
use ulsync_server.HttpApi.Push.Outcome.{Outcome, accepted, push_handler-Outcome}
use ulsync_server.HttpApi.Server.Tables.{serve_tables}
use ulsync_server.HttpApi.Server.Safety.{push_handler-Written, Written-IsValid, same_tables}

module _ (u v : Str) where
  Outcome-Grows :
      (now : ℤ) (request : Decoded WireEnvelope) (db : Db) (p : Pushed)
      → Outcome v now request db p
      → Grows u db p.db
  unfolding accepted refused
  Outcome-Grows now request db p (inl (ws, es, e, f, c, done)) =
      subst (λ (x : Pushed). Grows u db x.db) (sym done) (apply_all-Grows u v es db)
  Outcome-Grows now request db p (inr (status, body, e, h)) =
      subst (λ (x : Pushed). Grows u db x.db) (sym e) (Grows-same u db db refl refl)

  push_handler-Grows :
      (d : Driver) (max now : ℤ) (request : Decoded WireEnvelope) (db : Db)
      → Grows u db (push_handler d max v now request db).db
  push_handler-Grows d max now request db =
      Outcome-Grows now request db (push_handler d max v now request db)
        (push_handler-Outcome d max v now request db)

module _ (verify : Str → Option Str) (cfg : Settings) where
  pub serve-Grows :
      (u : Str) (r : Request) (node : Node) → Grows u node.db (serve verify cfg r node).0.db
  serve-Grows u r node =
      serve_tables (Grows u) verify cfg r (Grows-same u)
        (λ w h a. push_handler-Grows u w r.driver cfg.max_envelopes_per_push r.now r.push a)
        (Grows-trans u) node

  pub serve_tables-IsValid :
      (r : Request) (node : Node) → IsValid node.db → IsValid (serve verify cfg r node).0.db
  serve_tables-IsValid r node =
      serve_tables (λ a b. IsValid a → IsValid b) verify cfg r same_tables
        (λ w h a.
          Written-IsValid r.driver w a
            (push_handler r.driver cfg.max_envelopes_per_push w r.now r.push a).db
            (push_handler-Written r.driver w r.now a cfg.max_envelopes_per_push r.push))
        (λ a b c f g v. g (f v)) node
