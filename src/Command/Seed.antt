-- ===== src/Command/Seed.antt =====
-- cmd/ulsync-server/seed.go: the document of the first run, at one path. The system calls are
-- represented by their answers, and other processes by what they do to the path between the steps.
pub mod Kept
pub mod First
use ulsync_server.Prelude.{
  Bool, true, false, not, ◌&&◌, ◌||◌, Option, none, some, [], Str, trim_space, Result, ok, err,
  if◌then◌else◌,
}
use ulsync_server.Config.{Config, embedded, is_blank}
use ulsync_server.Config.Seed.{SeedError, seed}

-- The file at the path, and the temporary file beside it.
pub record Disk : Type 0 where
  pub config : Option Str
  pub temp : Option Str

-- The answers of the calls. A `Stat` that is not answered fails with another error than that of a
-- missing file, and `written_part` is what a failed write leaves. `others_…` is what other processes make of the file before a step.
pub record SeedAnswers : Type 0 where
  pub first_stat : Bool
  pub second_stat : Bool
  pub last_stat : Bool
  pub absolute : Option Str
  pub encodes : Config → Option Str
  pub makes_directory : Bool
  pub creates_temp : Bool
  pub chmods : Bool
  pub writes : Bool
  pub written_part : Str
  pub syncs : Bool
  pub closes : Bool
  pub renames : Bool
  pub removes : Bool
  pub others_before_seed : Option Str → Option Str
  pub others_before_last_stat : Option Str → Option Str
  pub others_before_rename : Option Str → Option Str

pub data EnsureError : Type 0 where
  stat_config missing_flags exclusive_flags already_exists encode_config create_directory
        create_temp chmod_temp write_temp sync_temp close_temp rename_config :
      EnsureError
  refused_seed : SeedError → EnsureError

abbrev pub exists : Option Str → Bool
exists none = false
exists (some contents) = true

-- The deferred `os.Remove` of the temporary file.
unfoldable pub clean_up : SeedAnswers → Disk → Disk
clean_up a d = if a.removes then record d { temp = none } else d

-- `os.Rename` onto the path: it replaces a file that stands there.
unfoldable pub rename_temp : SeedAnswers → Str → Disk → Disk × Option EnsureError
unfolding clean_up
rename_temp a contents d =
    if a.renames
    then (record { config = some contents; temp = none }, none)
    else (clean_up a d, some rename_config)

-- The second half of `writeFileAtomic`: the path is looked at again before the rename.
unfoldable pub put_in_place : SeedAnswers → Str → Disk → Disk × Option EnsureError
unfolding clean_up rename_temp
put_in_place a contents d =
    if not a.last_stat
    then (clean_up a d, some stat_config)
    else if exists d.config
    then (clean_up a d, some already_exists)
    else rename_temp a contents (record d { config = a.others_before_rename d.config })

-- `writeFileAtomic`
unfoldable pub write_file_atomic : SeedAnswers → Str → Disk → Disk × Option EnsureError
unfolding clean_up put_in_place
write_file_atomic a contents d =
    if not a.makes_directory
    then (d, some create_directory)
    else if not a.creates_temp
    then (d, some create_temp)
    else if not a.chmods
    then (clean_up a (record d { temp = some [] }), some chmod_temp)
    else if not a.writes
    then (clean_up a (record d { temp = some a.written_part }), some write_temp)
    else if not a.syncs
    then (clean_up a (record d { temp = some contents }), some sync_temp)
    else if not a.closes
    then (clean_up a (record d { temp = some contents }), some close_temp)
    else put_in_place a contents
        (record { config = a.others_before_last_stat d.config; temp = some contents })

unfoldable pub write_encoded : SeedAnswers → Option Str → Disk → Disk × Option EnsureError
unfolding write_file_atomic
write_encoded a none d = (d, some encode_config)
write_encoded a (some contents) d = write_file_atomic a contents d

unfoldable pub write_seed : SeedAnswers → Result SeedError Config → Disk → Disk × Option EnsureError
unfolding write_encoded
write_seed a (err e) d = (d, some (refused_seed e))
write_seed a (ok cfg) d = write_encoded a (a.encodes cfg) d

-- `seedConfig`
unfoldable pub seed_config :
    SeedAnswers
    → (jwks_url shared_secret listen admin_listen : Str) → Disk
    → Disk × Option EnsureError
unfolding write_seed
seed_config a jwks_url shared_secret listen admin_listen d =
    if not a.second_stat
    then (d, some stat_config)
    else if exists d.config
    then (d, some already_exists)
    else write_seed a (seed embedded a.absolute jwks_url shared_secret listen admin_listen) d

-- `ensureConfig`
unfoldable pub ensure_config :
    SeedAnswers
    → (jwks_url shared_secret listen admin_listen : Str) → Disk
    → Disk × Option EnsureError
unfolding seed_config
ensure_config a jwks_url shared_secret listen admin_listen d =
    if not a.first_stat
    then (d, some stat_config)
    else if exists d.config
    then (d, none)
    else if is_blank jwks_url && is_blank shared_secret
    then (d, some missing_flags)
    else if not (is_blank jwks_url) && not (is_blank shared_secret)
    then (d, some exclusive_flags)
    else seed_config a (trim_space jwks_url) (trim_space shared_secret) listen admin_listen
        (record d { config = a.others_before_seed d.config })
