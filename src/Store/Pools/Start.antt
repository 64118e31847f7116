-- ===== src/Store/Pools/Start.antt =====
-- What `Open` of internal/store/store.go leaves.
use ulsync_server.Prelude.{
  ◌≡◌, ◌≢◌, ◌⊎◌, inl, inr, refl, not, none, some, List, Str, codes, str_eq, arith, Option, Result,
  ok, err, if_both, sym, ap, ◌++◌,
}
use mathlib.Core.List.{append_assoc}
use ulsync_server.Config.{Storage}
use ulsync_server.Store.Migrate.{Engine, Entry, Schema, MigrateError, apply_migrations}
use ulsync_server.Store.Pools.{
  opened, Pools, OpenAnswers, OpenError, close_pool, close, pragmas, read_dsn, write_dsn,
  after_migrations, open_store,
}

-- No pool is left open.
abbrev pub IsShut : Pools → Type 0
IsShut p = (p.writer ≢ opened) × (p.reader ≢ opened)

-- What is left with a store, and what with an error.
abbrev pub Left :
    Engine → List Entry → Storage → Schema → Pools × Schema × Result OpenError Str → Type 0
Left engine entries cfg schema (p, s, ok path) =
    (p.writer ≡ opened)
    × (p.reader ≡ opened)
    × (path ≡ cfg.path)
    × (apply_migrations engine entries schema ≡ (s, none))
Left engine entries cfg schema (p, s, err e) =
    IsShut p × ((s ≡ schema) ⊎ (s ≡ (apply_migrations engine entries schema).0))

after_migrations-Left :
    (a : OpenAnswers) (engine : Engine) (entries : List Entry) (cfg : Storage) (schema : Schema)
    (r : Schema × Option MigrateError)
    → r ≡ apply_migrations engine entries schema
    → Left engine entries cfg schema
        (after_migrations a cfg.path (record { writer = opened; reader = opened }) r)
unfolding after_migrations close close_pool
after_migrations-Left a engine entries cfg schema (s, none) e = (refl, refl, refl, sym e)
after_migrations-Left a engine entries cfg schema (s, some x) e =
    ((ground arith, ground arith), inr (ap (λ t. t.0) e))

-- Open returns a store with both pools open over a schema that the migrations left without an
-- error; or an error, with every opened pool closed and a schema that is as before or as the
-- migrations left it.
pub open_store-Left :
    (a : OpenAnswers) (engine : Engine) (entries : List Entry) (cfg : Storage) (schema : Schema)
    → Left engine entries cfg schema (open_store a engine entries cfg schema)
unfolding open_store close_pool
open_store-Left a engine entries cfg schema =
    let P = Left engine entries cfg schema in
    if_both P (not (str_eq cfg.driver (codes "sqlite"))) ((ground arith, ground arith), inl refl)
      (if_both P (not a.makes_directory) ((ground arith, ground arith), inl refl)
        (if_both P (not (a.opens (write_dsn cfg.path))) ((ground arith, ground arith), inl refl)
          (if_both P (not (a.opens (read_dsn cfg.path))) ((ground arith, ground arith), inl refl)
            (if_both P (not (a.pings (write_dsn cfg.path))) ((ground arith, ground arith), inl refl)
              (if_both P (not (a.pings (read_dsn cfg.path)))
                ((ground arith, ground arith), inl refl)
                (after_migrations-Left a engine entries cfg schema _ refl))))))

-- The strings differ in the lock of the writer's transactions alone.
write_dsn-read_dsn : (path : Str) → write_dsn path ≡ read_dsn path ++ codes "&_txlock=immediate"
unfolding write_dsn read_dsn
write_dsn-read_dsn path =
    ap (λ t. codes "file:" ++ t) (sym (append_assoc path pragmas (codes "&_txlock=immediate")))
