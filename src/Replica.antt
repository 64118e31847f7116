-- ===== src/Replica.antt =====
-- A client of internal/httpapi/pull.go that keeps what it pulls: the last envelope that came for each
-- key, and the cursor of the last page. It is what the server's pages are for, and no part of the
-- server.
pub mod Keeps
pub mod Tracks
pub mod Pulls
pub mod Synced
pub mod Stream
use ulsync_server.Prelude.{
  ℕ, zero, suc, true, Option, none, some, List, [], ◌∷◌, Str, if◌then◌else◌,
}
use ulsync_server.Prelude.Int.{ℤ}
use ulsync_server.Prelude.Decimal.{decimal}
use ulsync_server.Store.Envelope.{Key, key_eq}
use ulsync_server.Store.Db.{Driver}
use ulsync_server.HttpApi.Push.{Response}
use ulsync_server.HttpApi.Page.{
  PullEnvelope, PullBody, pull_response, invalid_parameter, storage_unavailable,
}
use ulsync_server.HttpApi.Pull.{gone, Meets, Served, answered, abandoned, streamed, pull_handler}
use ulsync_server.HttpApi.Server.{Settings, Request, Node, serve}

pub record Client : Type 0 where
  pub cursor : ℕ
  pub copy : Key → Option PullEnvelope

abbrev pub new_client : Client
new_client = record { cursor = 0; copy = λ k. none }

abbrev pub pull_key : PullEnvelope → Key
pull_key e = record { id = e.id; part = e.part }

unfoldable pub put : PullEnvelope → (Key → Option PullEnvelope) → Key → Option PullEnvelope
put e copy k = if key_eq (pull_key e) k then some e else copy k

unfoldable pub keep_rows :
    List PullEnvelope → (Key → Option PullEnvelope) → Key → Option PullEnvelope
unfolding put
keep_rows [] copy = copy
keep_rows (e ∷ es) copy = keep_rows es (put e copy)

-- A page is kept; any other answer changes nothing.
unfoldable pub take_body : PullBody → Client → Client
unfolding keep_rows
take_body (pull_response rows cursor now) c = record {
  cursor = cursor;
  copy = keep_rows rows c.copy;
}
take_body (invalid_parameter param) c = c
take_body storage_unavailable c = c

unfoldable pub take_served : Served → Client → Client
unfolding take_body
take_served (answered r) c = take_body r.body c
take_served abandoned c = c
take_served (streamed frames) c = c

-- What an immediate pull meets: the tables as they are.
abbrev pub meets_now : Driver → ℤ → Node → Meets
meets_now driver now node = record {
  snapshots = λ i. record { driver = driver; db = node.db; now = now };
  wait = gone;
  events = [];
  writes = λ i. true;
  fuel = 0;
  others = λ r. r;
}

-- A pull of the client, with the cursor in decimal and its own `limit`.
unfoldable pub pull : Settings → Str → Driver → ℤ → Str → Node → Client → Client
unfolding pull_handler take_served decimal
pull cfg user_id driver now limit node c =
    take_served
      (pull_handler cfg.pull_limit_default cfg.pull_limit_max user_id (decimal 19 c.cursor) limit []
        (meets_now driver now node) node.registry).1
      c

-- What happens: a request to the server, of anyone, or a pull of the client.
pub data Happening : Type 0 where
  requests : Request → Happening
  pulls : Driver → ℤ → Str → Happening

module _ (verify : Str → Option Str) (cfg : Settings) (user_id : Str) where
  unfoldable pub happens : Happening → Node × Client → Node × Client
  unfolding serve pull
  happens (requests r) (node, c) = ((serve verify cfg r node).0, c)
  happens (pulls driver now limit) (node, c) = (node, pull cfg user_id driver now limit node c)

  unfoldable pub happen : List Happening → Node × Client → Node × Client
  unfolding happens
  happen [] s = s
  happen (e ∷ es) s = happen es (happens e s)

  -- So many pulls with an answering driver and the default limit.
  unfoldable pub pull_often : Driver → ℤ → ℕ → Node × Client → Node × Client
  unfolding happens
  pull_often driver now zero s = s
  pull_often driver now (suc n) s = pull_often driver now n (happens (pulls driver now []) s)
