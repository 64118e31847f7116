-- ===== src/Command/Seed/First.antt =====
-- The first start of cmd/ulsync-server: the file that it writes is one that `Load` reads.
use ulsync_server.Prelude.{◌≡◌, ◌≢◌, inl, inr, subst, none, some, [], Str, trim_space, Result, ok}
use ulsync_server.Prelude.Trim.{trim_space-trim_space}
use ulsync_server.Config.{Config, embedded}
use ulsync_server.Config.Load.{Document, decoded, load}
use ulsync_server.Config.Seed.{SeedError, seed}
use ulsync_server.Config.Seed.Loads.{seed-load}
use ulsync_server.Config.Seed.Authority.{Trusts, seed-Trusts}
use ulsync_server.Command.Seed.{Disk, SeedAnswers, ensure_config}
use ulsync_server.Command.Seed.Kept.{Seeded, Left, ensure_config-Left}

-- The YAML decoder reads back what the encoder writes of a document that `Seed` built.
abbrev pub RoundTrips : SeedAnswers → (Str → Document) → Result SeedError Config → Type 0
RoundTrips a decode r =
    (cfg : Config) (contents : Str)
    → r ≡ ok cfg
    → a.encodes cfg ≡ some contents
    → decode contents ≡ decoded cfg

module _ (a : SeedAnswers) (decode : Str → Document)
    (path jwks_url shared_secret listen admin_listen : Str) (d : Disk) {d' : Disk} where
  Left-Seeded :
      (r : Result SeedError Config)
      → d.config ≡ none
      → Left a r d.config (d', none)
      → Seeded a r (a.others_before_seed d.config) (d', none)
  Left-Seeded r h (inl (k, n, t)) = absurd (n h)
  Left-Seeded r h (inr (k, s)) = s

  -- After a first start without an error, at a path where there was no file, the file is one that
  -- Load accepts as the document of the seed, which trusts what the flags name, if the decoder
  -- reads back what the encoder writes of it and the path of the tables is not blank.
  pub ensure_config-load :
      RoundTrips a decode (
        seed embedded a.absolute
          (trim_space jwks_url)
          (trim_space shared_secret)
          listen
          admin_listen)
      → a.absolute ≡ some path
      → trim_space path ≢ []
      → d.temp ≡ none
      → d.config ≡ none
      → ensure_config a jwks_url shared_secret listen admin_listen d ≡ (d', none)
      → (contents : Str) × (cfg : Config) × (d'.config ≡ some contents)
        × (load embedded (decode contents) ≡ ok cfg)
        × Trusts (trim_space jwks_url) (trim_space shared_secret) cfg.auth
  ensure_config-load trips absolute present t h e =
      let j = trim_space jwks_url in
      let s = trim_space shared_secret in
      let r = seed embedded a.absolute j s listen admin_listen in
      let left =
        subst (Left a r d.config) e
          (ensure_config-Left a jwks_url shared_secret listen admin_listen d t) in
      let (k, l, m, (contents, written, (cfg, made, encoded))) = Left-Seeded r h left in
      let made' : seed embedded (some path) j s listen admin_listen ≡ ok cfg =
        subst (λ p. seed embedded p j s listen admin_listen ≡ ok cfg) absolute made in
      let trusted = seed-Trusts embedded (some path) j s listen admin_listen made' in
      let same : decode contents ≡ decoded cfg = trips cfg contents made encoded in
      (
        contents,
        cfg,
        written,
        rw same (seed-load path j s listen admin_listen present made'),
        rw (trim_space-trim_space jwks_url, trim_space-trim_space shared_secret) at trusted,
      )
