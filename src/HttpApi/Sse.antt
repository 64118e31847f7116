-- ===== src/HttpApi/Sse.antt =====
-- internal/httpapi/sse.go: the frames of a live=sse stream. Each query of the store sees the tables
-- of its own moment, and each write may fail.
pub mod Rising
pub mod Complete
use ulsync_server.Prelude.{
  ℕ, zero, suc, ◌+◌, Bool, true, false, List, [], ◌∷◌, ◌++◌, Str, ltb, length, map, Result, ok, err,
  if◌then◌else◌,
}
use ulsync_server.Prelude.Int.{ℤ}
use ulsync_server.Store.Envelope.{Envelope}
use ulsync_server.Store.Db.{Db, Driver, StoreError}
use ulsync_server.Store.Since.{since_page}
use ulsync_server.HttpApi.Page.{PullEnvelope, to_pull_envelope}

-- The events of a stream: `writeSSEEnvelope`, `writeSSECursor` with its `sseCursorBody`, and
-- `writeSSEPing`.
pub data Frame : Type 0 where
  envelope : PullEnvelope → Frame
  cursor : ℕ → ℤ → Frame
  ping : Frame

-- What one query meets: the driver, the tables and the clock after it.
pub record Snapshot : Type 0 where
  pub driver : Driver
  pub db : Db
  pub now : ℤ

-- How a burst ends: with its cursor, with an error, or with the fuel of the model.
pub data Ending : Type 0 where
  caught_up : ℕ → Ending
  broken out_of_fuel : Ending

-- `writeSSEFrame` for one frame after another until one fails; `writes n` says that the n-th frame
-- of the connection gets its deadline, is written and flushed.
unfoldable pub write_frames : (ℕ → Bool) → ℕ → List Frame → List Frame × Bool
write_frames writes n [] = ([], true)
write_frames writes n (f ∷ fs) =
    let rest = write_frames writes (n + 1) fs in
    if writes n then (f ∷ rest.0, rest.1) else ([], false)

-- The events of a page and its cursor.
unfoldable pub page_frames : ℤ → List Envelope → ℕ → List Frame
page_frames now rows next =
    map (λ env. envelope (to_pull_envelope env)) rows ++ cursor next now ∷ []

abbrev pub prepend : List Frame → List Frame × Ending → List Frame × Ending
prepend fs (gs, ending) = (fs ++ gs, ending)

-- The end of one turn of the loop in `streamCatchUp`; `go` is the next turn, from the number of
-- frames that were written.
unfoldable pub after_page :
    ℕ → List Envelope → ℕ → List Frame × Bool → (ℕ → List Frame × Ending) → List Frame × Ending
after_page limit rows next (fs, false) go = (fs, broken)
after_page limit rows next (fs, true) go =
    if ltb (length rows) limit then (fs, caught_up next) else prepend fs (go (length fs))

-- One turn after its query.
unfoldable pub after_query :
    (ℕ → Bool)
    → ℕ
    → ℤ
    → ℕ
    → Result StoreError (List Envelope × ℕ)
    → (ℕ → ℕ → List Frame × Ending)
    → List Frame × Ending
unfolding after_page page_frames write_frames
after_query writes limit now n (err e) go = ([], broken)
after_query writes limit now n (ok (rows, next)) go =
    after_page limit rows next (write_frames writes n (page_frames now rows next)) (go next)

-- `streamCatchUp`: the i-th query sees `snapshots i`, and `n` frames were written before. A page
-- below the limit ends it.
unfoldable pub stream_catch_up :
    (ℕ → Bool) → Str → ℕ → (fuel : ℕ) → (ℕ → Snapshot) → (i n since : ℕ) → List Frame × Ending
unfolding after_query
stream_catch_up writes user_id limit zero snapshots i n since = ([], out_of_fuel)
stream_catch_up writes user_id limit (suc fuel) snapshots i n since =
    after_query writes limit (snapshots i).now n
      (since_page (snapshots i).driver user_id since limit (snapshots i).db)
      (λ next m. stream_catch_up writes user_id limit fuel snapshots (i + 1) (n + m) next)

-- What the select of the wait loop receives: the end of the request, a tick of the heartbeat, or a
-- wakeup, whose queries see the snapshots.
pub data Event : Type 0 where
  gone ticked : Event
  woken : (ℕ → Snapshot) → Event

-- The wait loop of `serveLiveSSE` over the events that come: after a burst, and from it.
unfoldable pub after_burst : List Frame × Ending → (ℕ → ℕ → List Frame) → List Frame
after_burst (fs, caught_up next) go = fs ++ go (length fs) next
after_burst (fs, broken) go = fs
after_burst (fs, out_of_fuel) go = fs

unfoldable pub wait_loop :
    (ℕ → Bool) → Str → ℕ → (fuel : ℕ) → List Event → (n since : ℕ) → List Frame
unfolding after_burst
wait_loop writes user_id limit fuel [] n since = []
wait_loop writes user_id limit fuel (gone ∷ events) n since = []
wait_loop writes user_id limit fuel (ticked ∷ events) n since =
    let rest = wait_loop writes user_id limit fuel events (n + 1) since in
    if writes n then ping ∷ rest else []
wait_loop writes user_id limit fuel (woken snapshots ∷ events) n since =
    after_burst (stream_catch_up writes user_id limit fuel snapshots 0 n since)
      (λ m next. wait_loop writes user_id limit fuel events (n + m) next)

-- `serveLiveSSE`: the frames that reach the client.
unfoldable pub serve_live_sse :
    (ℕ → Bool) → Str → ℕ → (fuel : ℕ) → (ℕ → Snapshot) → List Event → ℕ → List Frame
serve_live_sse writes user_id limit fuel snapshots events since =
    wait_loop writes user_id limit fuel (woken snapshots ∷ events) 0 since

-- The envelopes that the frames carry.
unfoldable pub envelopes_in : List Frame → List PullEnvelope
envelopes_in [] = []
envelopes_in (envelope p ∷ fs) = p ∷ envelopes_in fs
envelopes_in (cursor next now ∷ fs) = envelopes_in fs
envelopes_in (ping ∷ fs) = envelopes_in fs
