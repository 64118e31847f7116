-- ===== src/Store/Migrate.antt =====
-- internal/store/migrate.go: the migrations at the start of the process. The embedded files and the
-- SQLite engine are arguments.
pub mod Once
pub mod Start
use ulsync_server.Prelude.{
  ℕ, zero, suc, ◌+◌, ◌^◌, Bool, true, false, not, ◌&&◌, ◌||◌, Option, none, some, List, [], ◌∷◌,
  ◌++◌, Str, codes, str_eq, str_lt, ltb, leb, ◌==◌, any, Result, ok, err, ◌>>=◌, all_digits,
  digits_value, trim_space, if◌then◌else◌,
}

-- An entry of the directory `migrations`.
pub record Entry : Type 0 where
  pub name : Str
  pub is_dir : Bool
  pub contents : Option Str

-- `migration`
pub record Migration : Type 0 where
  pub version : ℕ
  pub name : Str
  pub sql : Str

pub data MigrateError : Type 0 where
  bad_name unreadable failed_migration : Str → MigrateError
  none_found no_version : MigrateError

-- `strings.Cut` at a character, what stands before it
unfoldable pub cut_before : ℕ → Str → Option Str
cut_before sep [] = none
cut_before sep (c ∷ s) =
    if c == sep
    then some []
    else elim (cut_before sep s) [ none ↦ none | some before ↦ some (c ∷ before) ]

-- `strconv.Atoi` of what is to be positive: a number of digits after an optional plus sign, below
-- 2^63. A minus sign makes it an error or not positive.
unfoldable pub unsigned : Str → Str
unsigned [] = []
unsigned (c ∷ s) = if c == b'+' then s else c ∷ s

unfoldable pub positive : Str → Option ℕ
positive digits =
    if not (str_eq digits [])
      && all_digits digits
      && ltb 0 (digits_value 0 digits)
      && ltb (digits_value 0 digits) (2 ^ 63)
    then some (digits_value 0 digits)
    else none

-- `parseMigrationVersion`
unfoldable pub parse_migration_version : Str → Option ℕ
unfolding cut_before unsigned positive
parse_migration_version name = elim (cut_before b'_' name) [
  | none ↦ none
  | some prefix ↦ positive (unsigned prefix)
]

unfoldable pub has_suffix : Str → Str → Bool
has_suffix [] suffix = str_eq [] suffix
has_suffix (c ∷ s) suffix = str_eq (c ∷ s) suffix || has_suffix s suffix

-- The order of `sort.Slice`: by version, then by name.
unfoldable pub insert_migration : Migration → List Migration → List Migration
insert_migration m [] = m ∷ []
insert_migration m (n ∷ ns) =
    if ltb m.version n.version || m.version == n.version && not (str_lt n.name m.name)
    then m ∷ n ∷ ns
    else n ∷ insert_migration m ns

unfoldable pub load_entry : Entry → Result MigrateError Migration
unfolding parse_migration_version
load_entry e = elim (parse_migration_version e.name) [
  | none ↦ err (bad_name e.name)
  | some version ↦ elim e.contents [
    | none ↦ err (unreadable e.name)
    | some sql ↦ ok (record { version = version; name = e.name; sql = sql })
  ]
]

-- `loadMigrations`: the entries in order, each sorted into the others.
unfoldable pub load_migrations : List Entry → Result MigrateError (List Migration)
unfolding load_entry insert_migration has_suffix
load_migrations [] = ok []
load_migrations (e ∷ es) =
    let rest = load_migrations es in
    if e.is_dir || not (has_suffix e.name (codes ".sql")) then rest else elim (load_entry e) [
      | err x ↦ err x
      | ok m ↦ elim rest [ err x ↦ err x | ok ms ↦ ok (insert_migration m ms) ]
    ]

-- The statements that were carried out, and the rows of `schema_migrations`, none without the table.
pub record Schema : Type 0 where
  pub versions : Option (List ℕ)
  pub statements : List Str

-- What the engine carries out; `creates s` says that the statement creates `schema_migrations` if it
-- is missing.
pub record Engine : Type 0 where
  pub reads : Bool
  pub begins : ℕ → Bool
  pub runs : Str → Bool
  pub creates : Str → Bool
  pub inserts : ℕ → Bool
  pub commits : ℕ → Bool

unfoldable pub max_of : List ℕ → ℕ
max_of [] = 0
max_of (v ∷ vs) = let rest = max_of vs in if leb rest v then v else rest

-- `appliedMigrationVersion`
unfoldable pub applied_migration_version : Engine → Schema → Option ℕ
unfolding max_of
applied_migration_version engine s =
    if engine.reads then elim s.versions [ none ↦ some 0 | some vs ↦ some (max_of vs) ] else none

-- `strings.Split` at ';'
unfoldable pub split_semicolons : Str → List Str
split_semicolons [] = [] ∷ []
split_semicolons (c ∷ s) = elim (split_semicolons s) [
  | [] ↦ []
  | part ∷ parts ↦ if c == b';' then [] ∷ part ∷ parts else (c ∷ part) ∷ parts
]

unfoldable pub not_empty : List Str → List Str
not_empty [] = []
not_empty (part ∷ parts) =
    let rest = not_empty parts in
    let statement = trim_space part in if str_eq statement [] then rest else statement ∷ rest

-- `splitSQLStatements`
unfoldable pub split_sql_statements : Str → List Str
unfolding split_semicolons not_empty
split_sql_statements sql = not_empty (split_semicolons sql)

-- The statements of one migration, in its transaction.
unfoldable pub run_statements : Engine → List Str → Schema → Option Schema
run_statements engine [] s = some s
run_statements engine (q ∷ qs) s =
    if engine.runs q
    then run_statements engine qs (record {
      versions = elim s.versions [
        | none ↦ (if engine.creates q then some [] else none)
        | some vs ↦ some vs
      ];
      statements = s.statements ++ q ∷ [];
    })
    else none

-- INSERT INTO schema_migrations, whose key is the version.
unfoldable pub record_version : Engine → ℕ → Schema → Option Schema
record_version engine version s = elim s.versions [
  | none ↦ none
  | some vs ↦
      if engine.inserts version && not (any (λ v. v == version) vs)
      then some (record s { versions = some (version ∷ vs) })
      else none
]

-- `applyMigration`: the schema after its commit, or none for an error, which rolls back.
unfoldable pub apply_migration : Engine → Migration → Schema → Option Schema
unfolding run_statements record_version split_sql_statements
apply_migration engine m s =
    if engine.begins m.version
    then elim (run_statements engine (split_sql_statements m.sql) s) [
      | none ↦ none
      | some ran ↦ elim (record_version engine m.version ran) [
        | none ↦ none
        | some recorded ↦ (if engine.commits m.version then some recorded else none)
      ]
    ]
    else none

-- The loop of `applyMigrations`: the schema it leaves, and its error, none for nil.
unfoldable pub apply_loop : Engine → ℕ → List Migration → Schema → Schema × Option MigrateError
unfolding apply_migration
apply_loop engine current [] s = (s, none)
apply_loop engine current (m ∷ ms) s = elim (leb m.version current) [
  | true ↦ apply_loop engine current ms s
  | false ↦ elim (apply_migration engine m s) [
    | none ↦ (s, some (failed_migration m.name))
    | some s' ↦ apply_loop engine m.version ms s'
  ]
]

unfoldable pub apply_loaded :
    Engine → Result MigrateError (List Migration) → Schema → Schema × Option MigrateError
unfolding apply_loop applied_migration_version
apply_loaded engine (err x) s = (s, some x)
apply_loaded engine (ok []) s = (s, some none_found)
apply_loaded engine (ok (m ∷ ms)) s = elim (applied_migration_version engine s) [
  | none ↦ (s, some no_version)
  | some current ↦ apply_loop engine current (m ∷ ms) s
]

-- `applyMigrations`
unfoldable pub apply_migrations : Engine → List Entry → Schema → Schema × Option MigrateError
unfolding apply_loaded load_migrations
apply_migrations engine entries s = apply_loaded engine (load_migrations entries) s
