-- ===== src/System.antt =====
-- The process that cmd/ulsync-server/main.go builds: the sync server and the panel over one store, one
-- verifier, one collector and one registry. An action is a whole request or a tick of the panel.
pub mod Authorised
pub mod Invariant
use ulsync_server.Prelude.{
  ℕ, Bool, true, false, not, ◌||◌, Option, none, some, List, [], ◌∷◌, Str, codes, str_eq,
  trim_space, if◌then◌else◌,
}
use ulsync_server.Prelude.Int.{ℤ}
use ulsync_server.Config.{Config}
use ulsync_server.Store.Db.{Driver}
use ulsync_server.Auth.{Jwt, Circumstances, Verifier, verify}
use ulsync_server.Metrics.{Collector, Finished, wrap_enter, wrap_leave}
use ulsync_server.HttpApi.Pull.{Served, answered, abandoned, streamed}
use ulsync_server.HttpApi.Server.{
  Request, Node, Reply, unauthorized, redirected, not_found, method_not_allowed, whoami_reply,
  health_reply, origin_reply, hello_reply, push_reply, diff_reply, pull_reply, RootRoute, to_v1,
  to_health, root_redirect, root_method, root_missing, cut_space, to_lower, root_route, serve,
}
use ulsync_server.Admin
use ulsync_server.Admin.{serve_panel}
use ulsync_server.Admin.Snapshot.{Options, Tick, Cache, Snapshot, Seen, tick}
use ulsync_server.Command.Start.{settings, auth_settings}

-- What does not change while the process runs.
pub record Process (K : Type 0) : Type 0 where
  pub config : Config
  pub jwt : Jwt K
  pub options : Options
  pub version : Str
  pub started_at : ℕ

pub record System (K : Type 0) : Type 0 where
  pub node : Node
  pub verifier : Verifier K
  pub counters : Collector
  pub cache : Cache
  pub frame : Option Snapshot

pub data Action (K : Type 0) : Type 0 where
  calls : Circumstances K → Request → ℕ → ℤ → Action K
  asks_panel : Circumstances K → Admin.Request → Action K
  ticks : Tick → ℕ → Driver → Action K

-- The token that `requireBearer` hands to `Verify`.
unfoldable pub bearer_of : Str → Option Str
unfolding cut_space to_lower trim_space
bearer_of authorization = elim (cut_space authorization) [
  | none ↦ none
  | some (scheme, token) ↦
      if not (str_eq (to_lower scheme) (codes "bearer")) || str_eq (trim_space token) []
      then none
      else some (trim_space token)
]

-- The status that `Wrap` sees; one that a handler does not set is 200.
unfoldable pub status_of : Reply → ℕ
status_of unauthorized = 401
status_of redirected = 301
status_of not_found = 404
status_of method_not_allowed = 405
status_of (whoami_reply user_id) = 200
status_of (health_reply response) = response.status
status_of (origin_reply response) = response.status
status_of (hello_reply response) = response.status
status_of (push_reply response) = response.status
status_of (diff_reply response) = response.status
status_of (pull_reply (answered response)) = response.status
status_of (pull_reply abandoned) = 200
status_of (pull_reply (streamed frames)) = 200

abbrev pub is_wrapped : RootRoute → Bool
is_wrapped to_v1 = true
is_wrapped to_health = false
is_wrapped root_redirect = false
is_wrapped root_method = false
is_wrapped root_missing = false

unfoldable pub show_frame : {K : Type 0} → Cache × Snapshot → System K → System K
show_frame (cache, frame) s = record s { cache = cache; frame = some frame }

module _ {K : Type 0} (w : Process K) where
  -- `requireBearer` over the verifier as it is.
  unfoldable pub served : Circumstances K → Request → System K → Node × Reply
  unfolding serve verify settings auth_settings
  served c r s =
      serve (λ token. (verify (auth_settings w.config) w.jwt c token s.verifier).1)
        (settings w.config) r s.node

  -- The verifier after the call of `Verify`, if there is one.
  unfoldable pub verified : Circumstances K → Request → System K → Verifier K
  unfolding verify auth_settings bearer_of
  verified c r s = elim (bearer_of r.authorization) [
    | none ↦ s.verifier
    | some token ↦ (verify (auth_settings w.config) w.jwt c token s.verifier).0
  ]

  unfoldable pub finished : Circumstances K → Request → ℕ → ℤ → System K → Finished
  unfolding served status_of
  finished c r elapsed at s = record {
    method = r.method;
    path = r.path;
    live = r.live;
    status = status_of (served c r s).1;
    elapsed = elapsed;
    at = at;
  }

  -- A request to the sync server: `Wrap` around `requireBearer` on the /v1 routes.
  unfoldable pub call : Circumstances K → Request → ℕ → ℤ → System K → System K
  unfolding served verified finished wrap_enter wrap_leave root_route
  call c r elapsed at s =
      if is_wrapped (root_route r.method r.path)
      then record s {
        node = (served c r s).0;
        verifier = verified c r s;
        counters = wrap_leave (finished c r elapsed at s) (wrap_enter s.counters);
      }
      else record s { node = (served c r s).0 }

  -- What the panel reads: the parts of the sync server.
  unfoldable pub seen : ℕ → Driver → System K → Seen
  seen now driver s = record {
    version = w.version;
    started_at = w.started_at;
    now = now;
    config = w.config;
    counters = s.counters;
    registry = s.node.registry;
    driver = driver;
    db = s.node.db;
  }

  unfoldable pub act : Action K → System K → System K
  unfolding call serve_panel tick auth_settings seen show_frame
  act (calls c r elapsed at) s = call c r elapsed at s
  act (asks_panel c r) s = record s {
    verifier = (serve_panel w.config.admin.token (auth_settings w.config) w.jwt c r s.verifier).0;
  }
  act (ticks t now driver) s =
      show_frame (tick w.options w.config.storage.path t (seen now driver s) s.cache) s

  -- The system after the actions, the newest first.
  unfoldable pub run : List (Action K) → System K → System K
  unfolding act
  run [] s = s
  run (a ∷ actions) s = act a (run actions s)
