-- ===== src/HttpApi/Server/Users.antt =====
-- Whose rows a request to internal/httpapi/server.go may change.
use ulsync_server.Prelude.{
  ◌≡◌, ◌≢◌, refl, ap, ◌∙◌, ◌⊎◌, inl, inr, false, Option, none, some, Str, str_eq, arith,
}
use ulsync_server.Prelude.Int.{ℤ}
use ulsync_server.Store.Envelope.{Key}
use ulsync_server.Store.Db.{Db, Driver, find_row}
use ulsync_server.Store.Upsert.Lww.{apply_all_other_user}
use ulsync_server.HttpApi.Push.{WireEnvelope, Decoded, Pushed, refused, push_handler}
use ulsync_server.HttpApi.Push.Outcome.{Outcome, accepted, push_handler-Outcome}
use ulsync_server.HttpApi.Server.Tables.{serve_tables}
use ulsync_server.HttpApi.Server.{
  Settings, Request, Node, unauthorized, RootRoute, to_health, to_v1, root_redirect, root_method,
  root_missing, require_bearer, root_route, serve_bearer, serve_root, serve,
}

-- The rows of one user at every key.
module _ (u v : Str) (j : Key) (other : str_eq u v ≡ false) where
  find_row-push_handler :
      (d : Driver) (max : ℤ) (now : ℤ) (request : Decoded WireEnvelope) (db : Db)
      → find_row v j (push_handler d max u now request db).db.envelopes ≡ find_row v j db.envelopes
  unfolding accepted refused
  find_row-push_handler d max now request db =
      go (push_handler d max u now request db) (push_handler-Outcome d max u now request db)
    where
      go :
          (p : Pushed)
          → Outcome u now request db p
          → find_row v j p.db.envelopes ≡ find_row v j db.envelopes
      go p (inl (ws, es, e, f, c, done)) =
          rw (done, accepted) (apply_all_other_user u v es db j other)
      go p (inr (status, body, e, h)) = rw (e, refused) refl

  -- A request with a token of one user changes no row of another user, on any route.
  pub find_row-serve :
      (cfg : Settings) (r : Request) (verify : Str → Option Str) (node : Node)
      → require_bearer verify r.authorization ≡ some u
      → find_row v j (serve verify cfg r node).0.db.envelopes ≡ find_row v j node.db.envelopes
  find_row-serve cfg r verify node h =
      serve_tables (λ a b. find_row v j b.envelopes ≡ find_row v j a.envelopes) verify cfg r
        (λ a b e f. ap (find_row v j) e)
        (λ w k a.
          let p : w ≡ u = ground (arith, h, k) in
          rw p (find_row-push_handler r.driver cfg.max_envelopes_per_push r.now r.push a))
        (λ a b c e f. f ∙ e) node

-- A request without a valid token changes nothing, and on the protected routes it is answered 401.
pub serve-unauthorized :
    (verify : Str → Option Str) (cfg : Settings) (r : Request) (node : Node)
    → require_bearer verify r.authorization ≡ none
    → ((serve verify cfg r node).0 ≡ node)
      × ((root_route r.method r.path ≢ to_v1) ⊎ (serve verify cfg r node ≡ (node, unauthorized)))
unfolding serve serve_root serve_bearer
serve-unauthorized verify cfg r node h = go (root_route r.method r.path)
  where
    go :
        (route : RootRoute)
        → ((serve_root verify cfg r route node).0 ≡ node)
          × ((route ≢ to_v1) ⊎ (serve_root verify cfg r route node ≡ (node, unauthorized)))
    go to_health = (refl, inl (λ p. ground arith))
    go to_v1 = (rw h refl, inr (rw h refl))
    go root_redirect = (refl, inl (λ p. ground arith))
    go root_method = (refl, inl (λ p. ground arith))
    go root_missing = (refl, inl (λ p. ground arith))
