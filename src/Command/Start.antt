-- ===== src/Command/Start.antt =====
-- cmd/ulsync-server/main.go and healthcheck.go: one run of the process, from its parsed flags to its
-- exit code. The flag package, the listeners and the signals are represented by what they come to.
pub mod Serving
use ulsync_server.Prelude.{
  ℕ, Bool, true, false, Option, none, some, List, [], ◌∷◌, Str, ◌==◌, Result, ok, err,
  if◌then◌else◌,
}
use ulsync_server.Prelude.Int.{pos_part}
use ulsync_server.Config.{Config, embedded}
use ulsync_server.Config.Load.{Document, unreadable, LoadError, load}
use ulsync_server.Store.Db.{Db, Driver, StoreError}
use ulsync_server.Store.Origin.{bind_authored_origin}
use ulsync_server.Store.Migrate.{Engine, Entry, Schema}
use ulsync_server.Store.Pools.{OpenAnswers, Pools, no_pools, OpenError, open_store, close}
use ulsync_server.Auth.{AuthSettings, Verifier, new_verifier}
use ulsync_server.HttpApi.Server.{Settings}
use ulsync_server.Command.Seed.{SeedAnswers, Disk, EnsureError, ensure_config}

-- The flags of `runMain`, but for `-config`, which names the path of `Disk`.
pub record Flags : Type 0 where
  pub show_version : Bool
  pub do_healthcheck : Bool
  pub jwks_url : Str
  pub shared_secret : Str
  pub listen : Str
  pub admin_listen : Str

-- What ends the select: a listener, with an error or without, or a signal.
pub data Ended : Type 0 where
  listener_failed listener_closed signalled : Ended

-- What a run meets.
pub record World (K : Type 0) : Type 0 where
  pub probe : Option ℕ
  pub seeding : SeedAnswers
  pub decode : Str → Document
  pub opening : OpenAnswers
  pub engine : Engine
  pub entries : List Entry
  pub driver : Driver
  pub first_keys : Option (List (Str × K))
  pub started_at : ℕ
  pub ended : Ended

-- How far a run comes.
pub data Stage : Type 0 where
  bad_flags version_shown probed config_missing not_loaded not_opened not_bound no_verifier served :
      Stage

-- The state that a run leaves.
pub record Machine : Type 0 where
  pub disk : Disk
  pub schema : Schema
  pub db : Db
  pub pools : Pools

pub record Run : Type 0 where
  pub machine : Machine
  pub stage : Stage
  pub exit : ℕ

-- `probeHealth`: the status, or none for an error.
unfoldable pub probe_health : Option ℕ → ℕ
probe_health none = 1
probe_health (some status) = if status == 200 then 0 else 1

unfoldable pub read_document : (Str → Document) → Option Str → Document
read_document decode none = unreadable
read_document decode (some contents) = decode contents

-- What `auth.NewVerifier` is given.
unfoldable pub auth_settings : Config → AuthSettings
auth_settings c = record {
  jwks_url = c.auth.jwks_url;
  jwks_file = c.auth.jwks_file;
  jwks_cache_ttl = pos_part c.auth.jwks_cache_ttl;
  dev_hs256_secret = c.auth.dev_hs256_secret;
}

-- What `httpapi.New` is given.
unfoldable pub settings : Config → Settings
settings c = record {
  origin = c.origin;
  max_envelopes_per_push = c.sync.max_envelopes_per_push;
  pull_limit_default = pos_part c.sync.pull_limit_default;
  pull_limit_max = pos_part c.sync.pull_limit_max;
}

abbrev pub algs_of : Option (List Str) → List Str
algs_of none = []
algs_of (some algs) = algs

unfoldable pub exit_code : Ended → ℕ
exit_code listener_failed = 1
exit_code listener_closed = 0
exit_code signalled = 0

module _ {K : Type 0} (w : World K) where
  -- After the verifier: the listeners run, and the deferred `Close` ends the pools.
  unfoldable pub after_verifier : Machine → Option (Verifier K) → Run
  unfolding close exit_code
  after_verifier m none = record {
    machine = record m { pools = (close w.opening m.pools).0 };
    stage = no_verifier;
    exit = 1;
  }
  after_verifier m (some verifier) = record {
    machine = record m { pools = (close w.opening m.pools).0 };
    stage = served;
    exit = exit_code w.ended;
  }

  unfoldable pub after_bind : Config → Machine → Db × Result StoreError Str → Run
  unfolding after_verifier close new_verifier auth_settings
  after_bind cfg m (db, err e) = record {
    machine = record m { db = db; pools = (close w.opening m.pools).0 };
    stage = not_bound;
    exit = 1;
  }
  after_bind cfg m (db, ok bound) =
      after_verifier (record m { db = db })
        (new_verifier (auth_settings cfg) (algs_of cfg.auth.allowed_algs) w.first_keys w.started_at)

  unfoldable pub after_open : Config → Machine → Pools × Schema × Result OpenError Str → Run
  unfolding after_bind bind_authored_origin
  after_open cfg m (pools, schema, err e) = record {
    machine = record m { pools = pools; schema = schema };
    stage = not_opened;
    exit = 1;
  }
  after_open cfg m (pools, schema, ok path) =
      after_bind cfg (record m { pools = pools; schema = schema })
        (bind_authored_origin w.driver cfg.origin m.db)

  unfoldable pub after_load : Machine → Result LoadError Config → Run
  unfolding after_open open_store
  after_load m (err e) = record { machine = m; stage = not_loaded; exit = 1 }
  after_load m (ok cfg) =
      after_open cfg m (open_store w.opening w.engine w.entries cfg.storage m.schema)

  unfoldable pub after_ensure : Machine → Disk × Option EnsureError → Run
  unfolding after_load load read_document
  after_ensure m (disk, some e) = record {
    machine = record m { disk = disk };
    stage = config_missing;
    exit = 1;
  }
  after_ensure m (disk, none) =
      after_load (record m { disk = disk }) (load embedded (read_document w.decode disk.config))

  unfoldable pub run_flags : Flags → Machine → Run
  unfolding after_ensure ensure_config probe_health
  run_flags f m =
      if f.show_version
      then record { machine = m; stage = version_shown; exit = 0 }
      else if f.do_healthcheck
      then record { machine = m; stage = probed; exit = probe_health w.probe }
      else after_ensure m
          (ensure_config w.seeding f.jwks_url f.shared_secret f.listen f.admin_listen m.disk)

  -- `runMain`, of what the flag package comes to.
  unfoldable pub run_main : Option Flags → Machine → Run
  unfolding run_flags
  run_main none m = record { machine = m; stage = bad_flags; exit = 1 }
  run_main (some f) m = run_flags f m
