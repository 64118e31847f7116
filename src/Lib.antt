-- ===== src/Lib.antt =====
-- A verification library of ulsync-server, the store and HTTP surface of an offline-first sync
-- protocol. Each user has records keyed by (id, part); a push writes envelopes by last-write-wins,
-- a diff says which of them the store lacks, and a pull reads what came after a cursor, at once,
-- after a wakeup, or as a stream.
--
-- Strings are lists of bytes (Prelude.Text), Go's int64 fields are the integers of Prelude.Int,
-- and `(T, error)` is Prelude.Errors.Result. Numbers that the code only counts with are natural
-- numbers.
--
-- The parts, from the tables up:
--
-- - Store.Conflict: `Ranks` and `Wins` (internal/store/conflict.go), and the WHERE clause of
--   `upsertEnvelopeSQL` that states the same rule in SQL.
-- - Store.Envelope, Store.Db: the envelope, the rows of the three tables
--   (internal/store/migrations), and the allocation of sequence numbers (`AllocateSeq`,
--   internal/store/store.go), which fails at the largest INTEGER. A `Driver` is an argument that
--   stands for the SQLite driver: it says which statements of a call are carried out. A statement
--   that fails changes nothing, a rollback restores the tables, and so does a commit that fails.
-- - Store.Upsert: `Upsert` and `UpsertMany` (internal/store/upsert.go), statement by statement;
--   Store.Upsert.Spec is the register of each key that they implement.
-- - Store.Since: `Since` (internal/store/since.go); Store.KeyMap, Store.Ranks: `StoredRanks`
--   (internal/store/ranks.go).
-- - Store.Origin: `Origin`, `BindAuthoredOrigin` and `EnsureOrigin` (internal/store/origin.go),
--   alone, in sequence, and with two requests at once (Store.Origin.Race).
-- - Store.Migrate: `applyMigrations` (internal/store/migrate.go) over the embedded files and an
--   `Engine` that says which statements SQLite carries out.
-- - Live: the registry of waiters (internal/live/registry.go). The mutex makes each operation one
--   step, and a channel of capacity 1 is a flag.
-- - HttpApi.Push, HttpApi.Diff: `pushHandler` and `diffHandler` (internal/httpapi/push.go,
--   diff.go) from the decoded body to the response; HttpApi.Base64 is the codec of the payload.
-- - HttpApi.Page, HttpApi.Pull, HttpApi.Sse: `pullHandler`, `serveLivePoll`
--   (internal/httpapi/pull.go) and `serveLiveSSE`, `streamCatchUp` (internal/httpapi/sse.go). What
--   a request that waits meets, the tables at each of its queries, what its select receives and
--   which writes fail, is an argument. HttpApi.Pull.Wakeup has the steps of other requests between
--   those of a waiting pull.
-- - HttpApi.Origin: `requireOrigin` and `helloHandler` (internal/httpapi/origin.go).
-- - HttpApi.Server: the routes of `New` and `requireBearer` (internal/httpapi/server.go) over the
--   shared tables and registry; it composes the handlers above, and after a push it notifies the
--   registry.
-- - Replica: a client that keeps what it pulls, beside the server, over the routes of HttpApi.Server
--   and `pullHandler`; Replica.Stream is the same over the frames of a stream.
-- - Auth: `Verifier` (internal/auth/verifier.go), its key set and reloads, `keyFunc`, `Diagnose`
--   and `Verify`; the JWT library and the loaded key documents are arguments.
-- - Metrics: the collector of the /v1 traffic (internal/metrics/metrics.go): its counters, modulo
--   2^64, its ring of 1024 latencies, and `P95`. `Wrap` is two steps, before and after its
--   handler; Metrics.Writer has the writer that records the status.
-- - Auth.Jwks: `parseJWKS` (internal/auth/jwks.go) from the decoded entries to the key set; Auth.Fetch:
--   `loadFile` and `fetchURL`, which give the verifier its key set.
-- - Config: the document with its defaults (internal/config/config.go, defaults.yaml), Config.Load
--   with `validate` and `Load`, Config.Redacted with `Redacted`, Config.Origin with
--   `ValidateOrigin`, Config.Seed with `Seed` (internal/config/seed.go), Config.Duration with
--   the YAML methods of `Duration`, and Config.Net with what they use of Go's net package.
-- - Store.Pools: `Open`, `Close` and `Stats` (internal/store/store.go) over the answers of the file
--   system and the driver; `Open` runs Store.Migrate.
-- - Admin: the routes and the bearer check of the panel (internal/admin/admin.go) over the verifier;
--   Admin.Snapshot has the throttled statistics, the snapshot and its stream
--   (internal/admin/snapshot.go), over the collector, the registry, the tables and the redacted
--   configuration.
-- - Command.Seed: `ensureConfig`, `seedConfig` and `writeFileAtomic` (cmd/ulsync-server/seed.go) on
--   one path, with the writes of other processes between their steps; Command.Start: `runMain` and
--   `probeHealth` (cmd/ulsync-server/main.go, healthcheck.go), which compose the parts above from the
--   flags to the exit code.
-- - GenTokens: `generate` (load/gentokens/main.go), whose key set Auth.Jwks reads.
-- - HoldConns: `run` (load/holdconns/main.go), its loop over the connections, `readTokens`, and the
--   loop of `discardSSE`, which runs on its own.
-- - System: the process as one state, the sync server and the panel over the same store, verifier,
--   collector and registry, with whole requests and ticks as its actions.
-- - Tests: runs of the model on small inputs, and each property applied at one.
--
-- Bounds and fuel. `streamCatchUp` has no bound of its own, as pushes may keep its pages full; the
-- model runs it on fuel, and over tables that do not change, more fuel than there are rows is
-- enough. The white space at the ends of a string is removed on fuel that is the length of the
-- string. Cursors are parsed below 2^63, the numbers in the subjects of generated tokens are below
-- 2^63, which 20 digits hold, and the counter of a user is an INTEGER of SQLite.
--
-- Not modelled. The JSON and YAML codecs are represented by their outcomes: a body is too large,
-- malformed, or a list of records, a response is its status with the value that is encoded, and the
-- configuration file is unreadable, malformed, or a document with its durations in it; Config.Duration
-- has the decoding of one duration, over the parser of package time. The clock is an argument of each handler. The contexts and their cancellation inside a
-- query, the caps of the pools, the listeners with their timeouts and
-- their shutdown, and the flag package are left out. The path of the tables in a seed, which
-- filepath derives from the working directory, is an argument. The logs are left out. The pauses of
-- the connection holder and the installer, a shell script, are not modelled.
mod Prelude
pub mod Config
pub mod Store
pub mod Live
pub mod HttpApi
pub mod Metrics
pub mod Auth
pub mod Admin
pub mod Command
pub mod Replica
pub mod System
pub mod GenTokens
pub mod HoldConns
mod Tests
