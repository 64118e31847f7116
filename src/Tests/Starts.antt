-- ===== src/Tests/Starts.antt =====
-- The properties of internal/store/migrate.go at sample files.
use ulsync_server.Prelude.{
  none, some, [], ◌∷◌, List, Str, ◌≡◌, refl, true, false, codes, all_digits, digits_value, str_eq,
  str_lt, trim_space,
}
use ulsync_server.Store.Migrate.{
  Entry, Migration, Schema, Engine, parse_migration_version, load_migrations, max_of,
  split_sql_statements, run_statements, record_version, apply_migration, apply_loop,
  apply_migrations,
}
use ulsync_server.Store.Migrate.Once.{applied, Progress}
use ulsync_server.Store.Migrate.Start.{apply_migrations-Progress, apply_migrations-again}

program : Unit {0}
unfolding str_eq str_lt all_digits digits_value trim_space parse_migration_version load_migrations
    max_of split_sql_statements run_statements record_version apply_migration apply_loop
    apply_migrations
program = tt

abbrev entry : Str → Str → Entry
entry name sql = record { name = name; is_dir = false; contents = some sql }

abbrev entries : List Entry
entries =
    entry (codes "0002_b.sql") (codes "C;")
    ∷ entry (codes "0001_a.sql") (codes "A; B ;")
    ∷ entry (codes "notes.txt") []
    ∷ []

abbrev sorted : List Migration
sorted =
    record { version = 1; name = codes "0001_a.sql"; sql = codes "A; B ;" }
    ∷ record { version = 2; name = codes "0002_b.sql"; sql = codes "C;" }
    ∷ []

abbrev answering : Engine
answering = record {
  reads = true;
  begins = λ v. true;
  runs = λ q. true;
  creates = λ q. str_eq q (codes "A");
  inserts = λ v. true;
  commits = λ v. true;
}

abbrev fresh_file : Schema
fresh_file = record { versions = none; statements = [] }

abbrev migrated : Schema
migrated = record {
  versions = some (2 ∷ 1 ∷ []);
  statements = codes "A" ∷ codes "B" ∷ codes "C" ∷ [];
}

apply_migrations-Progress_example :
    Progress
      (max_of (applied fresh_file))
      sorted
      fresh_file
      (apply_migrations answering entries fresh_file).0
      (apply_migrations answering entries fresh_file).1
unfolding program
apply_migrations-Progress_example =
    apply_migrations-Progress answering entries sorted fresh_file refl

apply_migrations-again_example : apply_migrations answering entries migrated ≡ (migrated, none)
unfolding program
apply_migrations-again_example =
    apply_migrations-again answering answering entries fresh_file migrated refl refl
