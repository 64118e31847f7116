-- ===== src/Tests/Runs.antt =====
-- The properties of the start of the process at small inputs.
use ulsync_server.Prelude.{
  str_eq, ℕ, ◌≡◌, ◌≢◌, refl, true, false, none, some, List, [], ◌∷◌, Str, codes, trim_space, ok,
  arith, sym, ◌∙◌,
}
use ulsync_server.Config.{Config, embedded}
use ulsync_server.Config.Load.{Document, decoded, load}
use ulsync_server.Config.Seed.{seed}
use ulsync_server.Config.Seed.Authority.{Trusts}
use ulsync_server.Store.Migrate.{Engine, Entry, Schema, apply_migrations}
use ulsync_server.Store.Pools.{OpenAnswers, closed, no_pools, write_dsn, open_store}
use ulsync_server.Store.Pools.Start
use ulsync_server.Store.Pools.Start.{open_store-Left}
use ulsync_server.Command.Seed.{
  Disk, SeedAnswers, clean_up, rename_temp, put_in_place, write_file_atomic, write_encoded,
  write_seed, seed_config, ensure_config,
}
use ulsync_server.Command.Seed.Kept
use ulsync_server.Command.Seed.Kept.{ensure_config-Left}
use ulsync_server.Command.Seed.First.{RoundTrips, ensure_config-load}
use ulsync_server.Command.Start.{Flags, World, Machine, served, signalled, run_main}
use ulsync_server.Command.Start.Serving.{Ends, run_main-Ends}
use ulsync_server.Tests.Data.{no_rows, answering}
use ulsync_server.Tests.Documents.{short}

program : Unit {0}
unfolding clean_up rename_temp put_in_place write_file_atomic write_encoded write_seed seed_config
    ensure_config ulsync_server.Tests.Documents.program
program = tt

-- A file system that carries everything out, and an encoder that writes the secret.
abbrev willing : SeedAnswers
willing = record {
  first_stat = true;
  second_stat = true;
  last_stat = true;
  absolute = some (codes "/srv/data/ulsync.db");
  encodes = λ c. some c.auth.dev_hs256_secret;
  makes_directory = true;
  creates_temp = true;
  chmods = true;
  writes = true;
  written_part = [];
  syncs = true;
  closes = true;
  renames = true;
  removes = true;
  others_before_seed = λ c. c;
  others_before_last_stat = λ c. c;
  others_before_rename = λ c. c;
}

abbrev blank : Disk
blank = record { config = none; temp = none }

abbrev seeded : Disk
seeded = record { config = some (codes "s"); temp = none }

seeds : ensure_config willing [] (codes "s") [] [] blank ≡ (seeded, none)
unfolding program
seeds = refl

-- Another process writes the file between the last look and the rename: its contents are lost.
overwritten :
    ensure_config
      (record willing { others_before_rename = λ c. some (codes "edited") })
      []
      (codes "s")
      []
      []
      blank
    ≡ (seeded, none)
unfolding program
overwritten = refl

ensure_config-Left_example :
    Kept.Left willing
      (seed embedded
        (some (codes "/srv/data/ulsync.db"))
        (trim_space [])
        (trim_space (codes "s"))
        []
        [])
      none
      (ensure_config willing [] (codes "s") [] [] blank)
ensure_config-Left_example = ensure_config-Left willing [] (codes "s") [] [] blank refl

-- What the secret seeds.
abbrev first_config : Config
first_config = record embedded {
  storage = record { driver = codes "sqlite"; path = codes "/srv/data/ulsync.db" };
  auth = record embedded.auth {
    jwks_url = [];
    dev_hs256_secret = codes "s";
    allowed_algs = some (codes "ES256" ∷ codes "RS256" ∷ codes "HS256" ∷ []);
  };
}

seeded_config :
    seed embedded willing.absolute (trim_space []) (trim_space (codes "s")) [] [] ≡ ok first_config
unfolding program
seeded_config = refl

abbrev reader : Str → Document
reader contents = decoded first_config

reads_back :
    RoundTrips willing reader
      (seed embedded willing.absolute (trim_space []) (trim_space (codes "s")) [] [])
reads_back cfg contents made encoded =
    let same : ok first_config ≡ ok cfg = sym seeded_config ∙ made in cc same

path_present : trim_space (codes "/srv/data/ulsync.db") ≢ []
unfolding program
path_present = ground arith

ensure_config-load_example :
    (contents : Str) × (cfg : Config) × (some (codes "s") ≡ some contents)
    × (load embedded (reader contents) ≡ ok cfg)
    × Trusts (trim_space []) (trim_space (codes "s")) cfg.auth
ensure_config-load_example =
    ensure_config-load willing reader (codes "/srv/data/ulsync.db") [] (codes "s") [] [] blank
      {d' = seeded} reads_back refl path_present refl refl seeds

abbrev answers : OpenAnswers
answers = record {
  makes_directory = true;
  opens = λ dsn. true;
  pings = λ dsn. str_eq dsn (write_dsn embedded.storage.path);
  closes_writer = true;
  closes_reader = true;
}

abbrev engine : Engine
engine = record {
  reads = true;
  begins = λ v. true;
  runs = λ q. true;
  creates = λ q. true;
  inserts = λ v. true;
  commits = λ v. true;
}

abbrev entries : List Entry
entries = record { name = codes "0001_a.sql"; is_dir = false; contents = some (codes "A;") } ∷ []

abbrev fresh_file : Schema
fresh_file = record { versions = none; statements = [] }

open_store-Left_example :
    Start.Left engine entries embedded.storage fresh_file
      (open_store answers engine entries embedded.storage fresh_file)
open_store-Left_example = open_store-Left answers engine entries embedded.storage fresh_file

abbrev world : World ℕ
world = record {
  probe = none;
  seeding = willing;
  decode = reader;
  opening = record answers { pings = λ dsn. true };
  engine = engine;
  entries = entries;
  driver = answering;
  first_keys = none;
  started_at = 1;
  ended = signalled;
}

abbrev flags : Flags
flags = record {
  show_version = false;
  do_healthcheck = false;
  jwks_url = [];
  shared_secret = codes "s";
  listen = [];
  admin_listen = [];
}

abbrev before_start : Machine
before_start = record { disk = blank; schema = fresh_file; db = no_rows; pools = no_pools }

run_main-Ends_example : Ends world before_start (run_main world (some flags) before_start)
run_main-Ends_example = run_main-Ends world (some flags) before_start (ground arith, ground arith)

-- The first start serves, and closes its pools at the signal.
serves :
    ((run_main world (some flags) before_start).stage ≡ served)
    × ((run_main world (some flags) before_start).machine.pools
        ≡ record { writer = closed; reader = closed })
    × ((run_main world (some flags) before_start).machine.disk ≡ seeded)
unfolding program run_main apply_migrations
serves = (refl, refl, refl)
