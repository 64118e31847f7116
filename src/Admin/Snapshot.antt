-- ===== src/Admin/Snapshot.antt =====
-- internal/admin/snapshot.go: the throttled statistics, the snapshot that a tick assembles, and the
-- stream of its frames.
pub mod Throttle
pub mod Secrets
use ulsync_server.Prelude.{
  ℕ, ◌-◌, ◌*◌, ◌/◌, Bool, true, false, not, Option, none, some, List, [], ◌∷◌, ◌++◌, Str, codes,
  ltb, leb, ok, err, Result, if◌then◌else◌,
}
use ulsync_server.Prelude.Int.{ℤ}
use ulsync_server.Config.{Config}
use ulsync_server.Config.Redacted.{redacted}
use ulsync_server.Store.Db.{Db, Driver, StoreError}
use ulsync_server.Store.Origin.{origin}
use ulsync_server.Store.Pools.{Stats}
use ulsync_server.Metrics.{Collector, LastError, p95}
use ulsync_server.Live.{Registry, len}

-- Five seconds and one second of nanoseconds.
abbrev pub stats_cache_ttl : ℕ
stats_cache_ttl = 5 * 1000000000

abbrev pub snapshot_interval : ℕ
snapshot_interval = 1000000000

-- `Options`; a duration that is not positive is 0.
pub record Options : Type 0 where
  pub snapshot_every : ℕ
  pub stats_every : ℕ

-- `snapshotEvery` and `statsEvery`
unfoldable pub snapshot_every : Options → ℕ
snapshot_every opts = if ltb 0 opts.snapshot_every then opts.snapshot_every else snapshot_interval

unfoldable pub stats_every : Options → ℕ
stats_every opts = if ltb 0 opts.stats_every then opts.stats_every else stats_cache_ttl

-- `requestsJSON`
pub record Requests : Type 0 where
  pub in_flight : ℕ
  pub total : ℕ
  pub status_4xx : ℕ
  pub status_5xx : ℕ

-- `Snapshot`; the map `Config` is made of the configuration that stands here.
pub record Snapshot : Type 0 where
  pub version : Str
  pub started_at : ℕ
  pub uptime_seconds : ℕ
  pub storage : Stats
  pub store_origin : Str
  pub requests : Requests
  pub live_connections : ℕ
  pub p95_ms : ℕ
  pub last_error : Option LastError
  pub config : Config

-- `snapshotState` without its frame; a time is none while it is zero.
pub record Cache : Type 0 where
  pub stats_cached : Stats
  pub stats_at : Option ℕ

-- What `refreshStats` meets: the clock at its test, the result of `Stats`, none for an error, and the
-- clock after it.
pub record Tick : Type 0 where
  pub checked_at : ℕ
  pub stats : Option Stats
  pub done_at : ℕ

abbrev pub zero_stats : Str → Stats
zero_stats path = record { users = 0; envelopes = 0; path = path; size_bytes = 0 }

unfoldable pub stale : ℕ → ℕ → Option ℕ → Bool
stale every now none = true
stale every now (some at) = leb every (now - at)

-- After the call of `Stats`: an error counts only while there is no value yet.
unfoldable pub after_stats : Str → ℕ → Option Stats → Cache → Cache
after_stats path done (some s) cache = record { stats_cached = s; stats_at = some done }
after_stats path done none cache = elim cache.stats_at [
  | none ↦ record { stats_cached = zero_stats path; stats_at = some done }
  | some at ↦ cache
]

-- `refreshStats`, and whether it called `Stats`.
unfoldable pub refresh_stats : Options → Str → Tick → Cache → Cache × Bool
unfolding stats_every stale after_stats
refresh_stats opts path t cache =
    if stale (stats_every opts) t.checked_at cache.stats_at
    then (after_stats path t.done_at t.stats cache, true)
    else (cache, false)

-- What the panel reads at a tick.
pub record Seen : Type 0 where
  pub version : Str
  pub started_at : ℕ
  pub now : ℕ
  pub config : Config
  pub counters : Collector
  pub registry : Registry
  pub driver : Driver
  pub db : Db

unfoldable pub or_empty : Result StoreError Str → Str
or_empty (ok s) = s
or_empty (err e) = []

-- `buildSnapshot`
unfoldable pub build_snapshot : Seen → Cache → Snapshot
unfolding origin or_empty p95 len redacted
build_snapshot seen cache = record {
  version = seen.version;
  started_at = seen.started_at;
  uptime_seconds = (seen.now - seen.started_at) / 1000000000;
  storage = cache.stats_cached;
  store_origin = or_empty (origin seen.driver seen.db);
  requests = record {
    in_flight = seen.counters.in_flight;
    total = seen.counters.total;
    status_4xx = seen.counters.status_4xx;
    status_5xx = seen.counters.status_5xx;
  };
  live_connections = len seen.registry;
  p95_ms = p95 seen.counters / 1000000;
  last_error = seen.counters.last_err;
  config = redacted seen.config;
}

-- A tick of `enableSnapshot`, and `assembleSnapshot`: the cache and the frame of the clients.
unfoldable pub tick : Options → Str → Tick → Seen → Cache → Cache × Snapshot
unfolding refresh_stats build_snapshot
tick opts path t seen cache =
    let refreshed = (refresh_stats opts path t cache).0 in
    (refreshed, build_snapshot seen refreshed)

-- What a call of the response controller comes to.
pub data ControlOutcome : Type 0 where
  done not_supported failed : ControlOutcome

unfoldable pub fails : ControlOutcome → Bool
fails done = false
fails not_supported = false
fails failed = true

-- What `writeSnapshotFrame` meets at its calls.
pub record FrameCalls : Type 0 where
  pub set_write_deadline : ControlOutcome
  pub writes : Bool
  pub flush : ControlOutcome

-- `writeSnapshotFrame` after the encoding: the bytes of a write without an error, and whether there is
-- no error.
unfoldable pub send_payload : FrameCalls → Str → Option Str × Bool
unfolding fails
send_payload calls payload =
    if fails calls.set_write_deadline
    then (none, false)
    else if calls.writes
    then (some payload, not (fails calls.flush))
    else (none, false)

-- What wakes the loop of `serveEvents`: the end of the request, or a tick with the snapshot of that
-- time and the outcomes of the calls.
pub data Wake : Type 0 where
  request_done : Wake
  ticked : Snapshot → FrameCalls → Wake

-- The frames of a write and of what follows it, which an error leaves out.
unfoldable pub after_frame : Option Str × Bool → List Str → List Str
after_frame (none, written) rest = if written then rest else []
after_frame (some payload, written) rest = payload ∷ (if written then rest else [])

-- Over `json.Marshal` of a snapshot.
module _ (marshal : Snapshot → Option Str) where
  -- `writeSnapshotFrame`
  unfoldable pub write_snapshot_frame : FrameCalls → Snapshot → Option Str × Bool
  unfolding send_payload
  write_snapshot_frame calls snap = elim (marshal snap) [
    | none ↦ (none, false)
    | some data_bytes ↦ send_payload calls (codes "data: " ++ data_bytes ++ 10 ∷ 10 ∷ [])
  ]

  -- The frames that `serveEvents` writes.
  unfoldable pub event_loop : List Wake → List Str
  unfolding write_snapshot_frame after_frame
  event_loop [] = []
  event_loop (request_done ∷ wakes) = []
  event_loop (ticked snap calls ∷ wakes) =
      after_frame (write_snapshot_frame calls snap) (event_loop wakes)

  unfoldable pub serve_events : Snapshot → FrameCalls → List Wake → List Str
  unfolding write_snapshot_frame event_loop after_frame
  serve_events current calls wakes =
      after_frame (write_snapshot_frame calls current) (event_loop wakes)
