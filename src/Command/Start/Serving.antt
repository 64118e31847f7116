-- ===== src/Command/Start/Serving.antt =====
-- What stands when cmd/ulsync-server/main.go serves, and what a run leaves open.
use ulsync_server.Prelude.{
  ◌≡◌, ◌≢◌, ◌⊎◌, refl, sym, ap, subst, true, ◌∙◌, Option, none, some, Str, arith, Result, ok, err,
  if_both,
}
use ulsync_server.Config.{Config, embedded}
use ulsync_server.Config.Load.{LoadError, load}
use ulsync_server.Store.Db.{Db, StoreError}
use ulsync_server.Store.Origin.{empty, bind_authored_origin}
use ulsync_server.Store.Origin.Contour.{
  origin_of, bind_authored_origin_ok, bind_authored_origin_err,
}
use ulsync_server.Store.Migrate.{Schema, apply_migrations}
use ulsync_server.Store.Pools.{Pool, never, closed, Pools, OpenError, opened, close, close_pool}
use ulsync_server.Store.Pools.Start.{IsShut, Left, open_store-Left}
use ulsync_server.Auth.{Verifier, new_verifier}
use ulsync_server.Command.Seed.{Disk, EnsureError, ensure_config}
use ulsync_server.Command.Start.{
  Flags, World, Machine, Run, Stage, bad_flags, version_shown, probed, config_missing, not_loaded,
  not_opened, not_bound, no_verifier, served, probe_health, read_document, auth_settings, algs_of,
  exit_code, after_verifier, after_bind, after_open, after_load, after_ensure, run_flags, run_main,
}

close_pool-ne : (p : Pool) → close_pool p ≢ opened
unfolding close_pool
close_pool-ne never = ground arith
close_pool-ne opened = ground arith
close_pool-ne closed = ground arith

module _ {K : Type 0} (w : World K) where
  close-IsShut : (p : Pools) → IsShut (close w.opening p).0
  unfolding close
  close-IsShut p = (close_pool-ne p.writer, close_pool-ne p.reader)

  -- What a process that serves has done since `before`.
  pub record Serves (before : Machine) (r : Run) : Type 0 where
    pub cfg : Config
    pub loaded : load embedded (read_document w.decode r.machine.disk.config) ≡ ok cfg
    pub migrated : apply_migrations w.engine w.entries before.schema ≡ (r.machine.schema, none)
    pub bound : (empty cfg.origin ≡ true) ⊎ (origin_of r.machine.db ≡ cfg.origin)
    pub verifies :
        new_verifier (auth_settings cfg) (algs_of cfg.auth.allowed_algs) w.first_keys w.started_at
        ≢ none
    pub exits : r.exit ≡ exit_code w.ended

  -- What a run has done, by the stage that it came to.
  abbrev pub Reached : Machine → Run → Stage → Type 0
  Reached before r bad_flags = (r.machine ≡ before) × (r.exit ≡ 1)
  Reached before r version_shown = (r.machine ≡ before) × (r.exit ≡ 0)
  Reached before r probed = (r.machine ≡ before) × (r.exit ≡ probe_health w.probe)
  Reached before r config_missing =
      (r.machine.schema ≡ before.schema) × (r.machine.db ≡ before.db) × (r.exit ≡ 1)
  Reached before r not_loaded =
      (r.machine.schema ≡ before.schema) × (r.machine.db ≡ before.db) × (r.exit ≡ 1)
  Reached before r not_opened = (r.machine.db ≡ before.db) × (r.exit ≡ 1)
  Reached before r not_bound = (r.machine.db ≡ before.db) × (r.exit ≡ 1)
  Reached before r no_verifier = r.exit ≡ 1
  Reached before r served = Serves before r

  abbrev pub Ends : Machine → Run → Type 0
  Ends before r = IsShut r.machine.pools × Reached before r r.stage

  module _ (before : Machine) where
    after_verifier-Ends :
        (m : Machine) (cfg : Config)
        → load embedded (read_document w.decode m.disk.config) ≡ ok cfg
        → apply_migrations w.engine w.entries before.schema ≡ (m.schema, none)
        → (empty cfg.origin ≡ true) ⊎ (origin_of m.db ≡ cfg.origin)
        → (v : Option (Verifier K))
        → new_verifier (auth_settings cfg) (algs_of cfg.auth.allowed_algs) w.first_keys w.started_at
          ≡ v
        → Ends before (after_verifier w m v)
    unfolding after_verifier
    after_verifier-Ends m cfg l g b none e = (close-IsShut m.pools, refl)
    after_verifier-Ends m cfg l g b (some v) e = (
      close-IsShut m.pools,
      record {
        cfg = cfg;
        loaded = l;
        migrated = g;
        bound = b;
        verifies = ground (arith, e);
        exits = refl;
      },
    )

    after_bind-Ends :
        (m : Machine) (cfg : Config)
        → load embedded (read_document w.decode m.disk.config) ≡ ok cfg
        → apply_migrations w.engine w.entries before.schema ≡ (m.schema, none)
        → m.db ≡ before.db
        → (b : Db × Result StoreError Str) → bind_authored_origin w.driver cfg.origin m.db ≡ b
        → Ends before (after_bind w cfg m b)
    unfolding after_bind
    after_bind-Ends m cfg l g k (db, err x) e = (
      close-IsShut m.pools,
      (
        sym (ap (λ t. t.0) e)
            ∙ bind_authored_origin_err w.driver cfg.origin m.db (ap (λ t. t.1) e)
            ∙ k,
        refl,
      ),
    )
    after_bind-Ends m cfg l g k (db, ok o) e =
        let named = bind_authored_origin_ok w.driver cfg.origin m.db (ap (λ t. t.1) e) in
        after_verifier-Ends (record m { db = db }) cfg l g
          (subst (λ x. (empty cfg.origin ≡ true) ⊎ (origin_of x ≡ cfg.origin)) (ap (λ t. t.0) e)
            named)
          _ refl

    after_open-Ends :
        (m : Machine) (cfg : Config)
        → load embedded (read_document w.decode m.disk.config) ≡ ok cfg
        → m.schema ≡ before.schema
        → m.db ≡ before.db
        → (r : Pools × Schema × Result OpenError Str)
        → Left w.engine w.entries cfg.storage m.schema r
        → Ends before (after_open w cfg m r)
    unfolding after_open
    after_open-Ends m cfg l g k (pools, schema, err x) left = (left.0, (k, refl))
    after_open-Ends m cfg l g k (pools, schema, ok path) left =
        after_bind-Ends (record m { pools = pools; schema = schema }) cfg l
          (subst (λ s. apply_migrations w.engine w.entries s ≡ (schema, none)) g left.3) k _ refl

    after_load-Ends :
        (m : Machine)
        → IsShut m.pools
        → m.schema ≡ before.schema
        → m.db ≡ before.db
        → (r : Result LoadError Config) → load embedded (read_document w.decode m.disk.config) ≡ r
        → Ends before (after_load w m r)
    unfolding after_load
    after_load-Ends m h g k (err x) e = (h, (g, k, refl))
    after_load-Ends m h g k (ok cfg) e =
        after_open-Ends m cfg e g k _
          (open_store-Left w.opening w.engine w.entries cfg.storage m.schema)

    after_ensure-Ends :
        IsShut before.pools
        → (r : Disk × Option EnsureError) → Ends before (after_ensure w before r)
    unfolding after_ensure
    after_ensure-Ends h (disk, some x) = (h, (refl, refl, refl))
    after_ensure-Ends h (disk, none) =
        after_load-Ends (record before { disk = disk }) h refl refl _ refl

  -- A process that serves has read a configuration that Load accepts from the file that then stands
  -- there, has carried out the migrations without an error, holds the configured origin in its
  -- tables if one is configured, and has a verifier; a run that ends before changes no more than
  -- its stage says and exits with 1, but for the version and a healthcheck; and no run leaves a
  -- pool open, if none was open before.
  pub run_main-Ends :
      (f : Option Flags) (before : Machine)
      → IsShut before.pools
      → Ends before (run_main w f before)
  unfolding run_main run_flags
  run_main-Ends none before h = (h, (refl, refl))
  run_main-Ends (some f) before h =
      if_both (Ends before) f.show_version (h, (refl, refl))
        (if_both (Ends before) f.do_healthcheck (h, (refl, refl))
          (after_ensure-Ends before h (
            ensure_config w.seeding f.jwks_url f.shared_secret f.listen f.admin_listen
              before.disk)))
