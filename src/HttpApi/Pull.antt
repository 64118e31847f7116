-- ===== src/HttpApi/Pull.antt =====
-- internal/httpapi/pull.go: GET /v1/sync/pull, at once or live. A handler that waits is given what it
-- meets: the tables at each of its queries, what its select receives, and what other requests do
-- to the registry in the meantime.
pub mod Answers
pub mod Wakeup
pub mod NoLostWakeup
use ulsync_server.Prelude.{ℕ, Bool, Option, none, some, List, [], ◌∷◌, Str, Result, ok, err}
use ulsync_server.Prelude.Int.{ℤ}
use ulsync_server.Store.Envelope.{Envelope}
use ulsync_server.Store.Db.{StoreError}
use ulsync_server.Store.Since.{since_page}
use ulsync_server.Live.{Registry, subscribe, unsubscribe}
use ulsync_server.HttpApi.Push.{Response}
use ulsync_server.HttpApi.Page.{
  Param, LiveMode, immediate, poll, sse, PullQuery, parse_query, PullBody, invalid_parameter,
  write_pull_json, answer_page,
}
use ulsync_server.HttpApi.Sse.{Snapshot, Frame, Event, serve_live_sse}

-- What the select of `serveLivePoll` receives: the end of the request, its timer at a time, or a
-- wakeup, whose query sees the snapshot.
pub data PollWait : Type 0 where
  gone : PollWait
  timed_out : ℤ → PollWait
  woken : Snapshot → PollWait

-- The pull without live: one query.
unfoldable pub pull_once : Snapshot → Str → ℕ → ℕ → Response PullBody
unfolding answer_page
pull_once s user_id since limit = answer_page s.now (since_page s.driver user_id since limit s.db)

unfoldable pub wait_poll : PollWait → Str → ℕ → ℕ → Option (Response PullBody)
unfolding pull_once write_pull_json
wait_poll gone user_id since limit = none
wait_poll (timed_out now) user_id since limit = some (write_pull_json now [] since)
wait_poll (woken s) user_id since limit = some (pull_once s user_id since limit)

-- `serveLivePoll` after its first query.
unfoldable pub after_first :
    ℤ
    → Result StoreError (List Envelope × ℕ)
    → Option (Response PullBody)
    → Option (Response PullBody)
unfolding answer_page
after_first now (err e) waited = some (answer_page now (err e))
after_first now (ok ([], cursor)) waited = waited
after_first now (ok (e ∷ es, cursor)) waited = some (answer_page now (ok (e ∷ es, cursor)))

-- `serveLivePoll`; `none` is no response.
unfoldable pub serve_live_poll : Snapshot → PollWait → Str → ℕ → ℕ → Option (Response PullBody)
unfolding after_first wait_poll
serve_live_poll first wait user_id since limit =
    after_first first.now (since_page first.driver user_id since limit first.db)
      (wait_poll wait user_id since limit)

-- What a request meets: the tables at its queries, the end of the wait of a poll, the events of a
-- stream and its writes, the fuel of its bursts, and the doings of others.
pub record Meets : Type 0 where
  pub snapshots : ℕ → Snapshot
  pub wait : PollWait
  pub events : List Event
  pub writes : ℕ → Bool
  pub fuel : ℕ
  pub others : Registry → Registry

pub data Served : Type 0 where
  answered : Response PullBody → Served
  abandoned : Served
  streamed : List Frame → Served

unfoldable pub to_served : Option (Response PullBody) → Served
to_served none = abandoned
to_served (some r) = answered r

-- The switch over `live` that serves an accepted query.
unfoldable pub serve_mode : LiveMode → Str → ℕ → ℕ → Meets → Served
unfolding to_served
serve_mode immediate user_id since limit m =
    answered (pull_once (m.snapshots 0) user_id since limit)
serve_mode poll user_id since limit m =
    to_served (serve_live_poll (m.snapshots 0) m.wait user_id since limit)
serve_mode sse user_id since limit m =
    streamed (serve_live_sse m.writes user_id limit m.fuel m.snapshots m.events since)

-- The registry around it: a live request subscribes first and unsubscribes at its end.
unfoldable pub around : LiveMode → Str → Meets → Registry → Registry
around immediate user_id m r = m.others r
around poll user_id m r = let s = subscribe user_id r in unsubscribe (some s.1) (m.others s.0)
around sse user_id m r = let s = subscribe user_id r in unsubscribe (some s.1) (m.others s.0)

-- After the guards on the query.
unfoldable pub serve_query : Str → Meets → Registry → Result Param PullQuery → Registry × Served
unfolding serve_mode around
serve_query user_id m r (err param) =
    (r, answered (record { status = 400; body = invalid_parameter param }))
serve_query user_id m r (ok q) =
    (around q.mode user_id m r, serve_mode q.mode user_id q.since q.limit m)

-- `pullHandler`, for the user of the bearer token.
unfoldable pub pull_handler :
    (default_limit max_limit : ℕ)
    → Str
    → (since limit live : Str) → Meets
    → Registry
    → Registry × Served
unfolding serve_query
pull_handler default_limit max_limit user_id raw_since raw_limit raw_live m r =
    serve_query user_id m r (parse_query default_limit max_limit raw_since raw_limit raw_live)
