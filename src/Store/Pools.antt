-- ===== src/Store/Pools.antt =====
-- `Open`, `Close` and `Stats` of internal/store/store.go: the two connection pools, the migrations at
-- the start, and the counts. The file system and the driver are represented by their answers.
pub mod Start
use ulsync_server.Prelude.{
  ℕ, Bool, true, false, not, ◌&&◌, Option, none, some, List, ◌++◌, Str, codes, str_eq, length,
  Result, ok, err, if◌then◌else◌,
}
use ulsync_server.Config.{Storage}
use ulsync_server.Store.Db.{Db}
use ulsync_server.Store.Migrate.{Engine, Entry, Schema, MigrateError, apply_migrations}

pub data Pool : Type 0 where
  never opened closed : Pool

pub record Pools : Type 0 where
  pub writer : Pool
  pub reader : Pool

abbrev pub no_pools : Pools
no_pools = record { writer = never; reader = never }

abbrev pub pragmas : Str
pragmas =
    codes "?_pragma=journal_mode(WAL)&_pragma=busy_timeout(5000)"
    ++ codes "&_pragma=synchronous(NORMAL)&_pragma=foreign_keys(ON)"

-- `readDSN`
unfoldable pub read_dsn : Str → Str
read_dsn path = codes "file:" ++ (path ++ pragmas)

-- `writeDSN`
unfoldable pub write_dsn : Str → Str
write_dsn path = codes "file:" ++ (path ++ (pragmas ++ codes "&_txlock=immediate"))

-- The answers to the calls of `Open`, of the driver for a connection string, and to the `Close` of
-- each pool.
pub record OpenAnswers : Type 0 where
  pub makes_directory : Bool
  pub opens : Str → Bool
  pub pings : Str → Bool
  pub closes_writer : Bool
  pub closes_reader : Bool

pub data OpenError : Type 0 where
  unsupported_driver create_directory open_writer open_reader ping_writer ping_reader : OpenError
  migration : MigrateError → OpenError

pub data CloseError : Type 0 where
  close_writer close_reader : CloseError

-- `Close` of one pool: a pool that is there is closed, whatever the call returns.
unfoldable pub close_pool : Pool → Pool
close_pool never = never
close_pool opened = closed
close_pool closed = closed

abbrev pub is_there : Pool → Bool
is_there never = false
is_there opened = true
is_there closed = true

-- `Close`: both pools, and the first error.
unfoldable pub close : OpenAnswers → Pools → Pools × Option CloseError
unfolding close_pool
close a p = (
  record { writer = close_pool p.writer; reader = close_pool p.reader },
  (if is_there p.writer && not a.closes_writer
      then some close_writer
      else if is_there p.reader && not a.closes_reader
      then some close_reader
      else none),
)

unfoldable pub after_migrations :
    OpenAnswers → Str → Pools → Schema × Option MigrateError → Pools × Schema × Result OpenError Str
unfolding close
after_migrations a path p (schema, none) = (p, schema, ok path)
after_migrations a path p (schema, some e) = ((close a p).0, schema, err (migration e))

-- `Open`: the pools, the schema, and the path of the store or an error.
unfoldable pub open_store :
    OpenAnswers → Engine → List Entry → Storage → Schema → Pools × Schema × Result OpenError Str
unfolding close_pool after_migrations read_dsn write_dsn
open_store a engine entries cfg schema =
    if not (str_eq cfg.driver (codes "sqlite"))
    then (no_pools, schema, err unsupported_driver)
    else if not a.makes_directory
    then (no_pools, schema, err create_directory)
    else if not (a.opens (write_dsn cfg.path))
    then (no_pools, schema, err open_writer)
    else if not (a.opens (read_dsn cfg.path))
    then (record { writer = close_pool opened; reader = never }, schema, err open_reader)
    else if not (a.pings (write_dsn cfg.path))
    then (
      record { writer = close_pool opened; reader = close_pool opened },
      schema,
      err ping_writer,
    )
    else if not (a.pings (read_dsn cfg.path))
    then (
      record { writer = close_pool opened; reader = close_pool opened },
      schema,
      err ping_reader,
    )
    else after_migrations a cfg.path (record { writer = opened; reader = opened })
        (apply_migrations engine entries schema)

-- `Stats`, with the answers to its two counts and the size of the file.
pub record Stats : Type 0 where
  pub users : ℕ
  pub envelopes : ℕ
  pub path : Str
  pub size_bytes : ℕ

pub record StatsAnswers : Type 0 where
  pub counts_users : Bool
  pub counts_envelopes : Bool
  pub file_size : Option ℕ

pub data StatsError : Type 0 where
  count_users count_envelopes stat_file : StatsError

unfoldable pub stats : StatsAnswers → Str → Db → Result StatsError Stats
stats a path db =
    if not a.counts_users
    then err count_users
    else if not a.counts_envelopes
    then err count_envelopes
    else elim a.file_size [
      | none ↦ err stat_file
      | some size ↦ ok (record {
        users = length db.users;
        envelopes = length db.envelopes;
        path = path;
        size_bytes = size;
      })
    ]
