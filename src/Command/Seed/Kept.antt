-- ===== src/Command/Seed/Kept.antt =====
-- What cmd/ulsync-server/seed.go leaves on the disk, whatever fails and whatever others do.
use ulsync_server.Prelude.{
  ◌≡◌, ◌≢◌, ◌⊎◌, inl, inr, refl, sym, false, not, ◌&&◌, Option, none, some, Str, arith, Bool-cases,
  trim_space, Result, ok, err, if_both, if_either, ◌∙◌, ap, [],
}
use ulsync_server.Config.{Config, embedded, is_blank}
use ulsync_server.Config.Seed.{SeedError, seed}
use ulsync_server.Command.Seed.{
  chmod_temp, write_temp, sync_temp, close_temp, Disk, SeedAnswers, EnsureError, exists, clean_up,
  rename_temp, put_in_place, write_file_atomic, write_encoded, write_seed, seed_config,
  ensure_config,
}

-- The temporary file is gone unless it could not be removed.
abbrev pub Cleaned : SeedAnswers → Option Str → Type 0
Cleaned a temp = (temp ≡ none) ⊎ (a.removes ≡ false)

-- The file at the path, for what stands there when `writeFileAtomic` starts: with an error it is as
-- the others left it, and without one it holds the contents, and the last `Stat` found none.
abbrev pub Written : SeedAnswers → Str → Option Str → Disk × Option EnsureError → Type 0
Written a contents c (d, some e) =
    ((d.config ≡ c)
      ⊎ (d.config ≡ a.others_before_last_stat c)
      ⊎ (d.config ≡ a.others_before_rename (a.others_before_last_stat c)))
    × Cleaned a d.temp
Written a contents c (d, none) =
    (d.config ≡ some contents) × (a.others_before_last_stat c ≡ none) × (d.temp ≡ none)

exists-none : (c : Option Str) → exists c ≡ false → c ≡ none
exists-none none h = refl
exists-none (some contents) h = absurd (ground arith)

module _ (a : SeedAnswers) (contents : Str) where
  clean_up-Cleaned : (d : Disk) → ((clean_up a d).config ≡ d.config) × Cleaned a (clean_up a d).temp
  unfolding clean_up
  clean_up-Cleaned d = elim (Bool-cases a.removes) [
    | inl h ↦ (ground (arith, h), inl (ground (arith, h)))
    | inr h ↦ (ground (arith, h), inr h)
  ]

  -- A failure before the last `Stat`.
  still :
      (c : Option Str) (d : Disk) (e : EnsureError)
      → d.config ≡ c
      → Written a contents c (clean_up a d, some e)
  still c d e h = let (k, f) = clean_up-Cleaned d in (inl (k ∙ h), f)

  rename_temp-Written :
      (c : Option Str) (d : Disk)
      → a.others_before_last_stat c ≡ none
      → d.config ≡ a.others_before_rename (a.others_before_last_stat c)
      → Written a contents c (rename_temp a contents d)
  unfolding rename_temp
  rename_temp-Written c d h k =
      if_both (Written a contents c) a.renames (refl, h, refl)
        (let (e, f) = clean_up-Cleaned d in (inr (inr (e ∙ k)), f))

  put_in_place-Written :
      (c : Option Str) (d : Disk)
      → d.config ≡ a.others_before_last_stat c
      → Written a contents c (put_in_place a contents d)
  unfolding put_in_place
  put_in_place-Written c d k =
      let (e, f) = clean_up-Cleaned d in
      if_both (Written a contents c) (not a.last_stat) (inr (inl (e ∙ k)), f)
        (if_either (Written a contents c) (exists d.config) (λ there. (inr (inl (e ∙ k)), f))
          (λ absent.
            let gone = exists-none d.config absent in
            rename_temp-Written c _ (sym k ∙ gone) (ap a.others_before_rename k)))

  pub write_file_atomic-Written :
      (d : Disk) → d.temp ≡ none → Written a contents d.config (write_file_atomic a contents d)
  unfolding write_file_atomic
  write_file_atomic-Written d h =
      let P = Written a contents d.config in
      if_both P (not a.makes_directory) (inl refl, inl h)
        (if_both P (not a.creates_temp) (inl refl, inl h)
          (if_both P (not a.chmods) (still d.config (record d { temp = some [] }) chmod_temp refl) (
            if_both P (not a.writes)
              (still d.config (record d { temp = some a.written_part }) write_temp refl)
              (if_both P (not a.syncs)
                (still d.config (record d { temp = some contents }) sync_temp refl)
                (if_both P (not a.closes)
                  (still d.config (record d { temp = some contents }) close_temp refl)
                  (put_in_place-Written d.config
                    (record { config = a.others_before_last_stat d.config; temp = some contents })
                    refl))))))

-- The contents are those of the document that `Seed` builds.
abbrev pub IsEncoded : SeedAnswers → Result SeedError Config → Str → Type 0
IsEncoded a r contents = (cfg : Config) × (r ≡ ok cfg) × (a.encodes cfg ≡ some contents)

-- The file at the path, for what stands there when `seedConfig` starts.
abbrev pub Seeded :
    SeedAnswers → Result SeedError Config → Option Str → Disk × Option EnsureError → Type 0
Seeded a r c (d, some e) =
    ((d.config ≡ c)
      ⊎ (d.config ≡ a.others_before_last_stat c)
      ⊎ (d.config ≡ a.others_before_rename (a.others_before_last_stat c)))
    × Cleaned a d.temp
Seeded a r c (d, none) =
    (c ≡ none)
    × (a.others_before_last_stat c ≡ none)
    × (d.temp ≡ none)
    × ((contents : Str) × (d.config ≡ some contents) × IsEncoded a r contents)

-- The file at the path, for what stands there at the start.
abbrev pub Left :
    SeedAnswers → Result SeedError Config → Option Str → Disk × Option EnsureError → Type 0
Left a r c (d, some e) =
    ((d.config ≡ c) × (d.temp ≡ none)) ⊎ Seeded a r (a.others_before_seed c) (d, some e)
Left a r c (d, none) =
    ((d.config ≡ c) × (c ≢ none) × (d.temp ≡ none))
    ⊎ ((c ≡ none) × Seeded a r (a.others_before_seed c) (d, none))

module _ (a : SeedAnswers) where
  Written-Seeded :
      (r : Result SeedError Config) (c : Option Str) (contents : Str)
      → c ≡ none
      → IsEncoded a r contents
      → (x : Disk × Option EnsureError) → Written a contents c x
      → Seeded a r c x
  Written-Seeded r c contents h s (d, some e) w = w
  Written-Seeded r c contents h s (d, none) (k, l, t) = (h, l, t, (contents, k, s))

  Seeded-Left :
      (r : Result SeedError Config) (c : Option Str)
      → c ≡ none
      → (x : Disk × Option EnsureError) → Seeded a r (a.others_before_seed c) x
      → Left a r c x
  Seeded-Left r c h (d, some e) s = inr s
  Seeded-Left r c h (d, none) s = inr (h, s)

  write_seed-Seeded :
      (r : Result SeedError Config) (d : Disk)
      → d.temp ≡ none
      → d.config ≡ none
      → Seeded a r d.config (write_seed a r d)
  unfolding write_seed write_encoded
  write_seed-Seeded (err e) d t h = (inl refl, inl t)
  write_seed-Seeded (ok cfg) d t h = go (a.encodes cfg) refl
    where
      go : (o : Option Str) → a.encodes cfg ≡ o → Seeded a (ok cfg) d.config (write_encoded a o d)
      go none e = unfold write_encoded in (inl refl, inl t)
      go (some contents) e =
          unfold write_encoded in
          Written-Seeded (ok cfg) d.config contents h (cfg, refl, e) _
            (write_file_atomic-Written a contents d t)

  seed_config-Seeded :
      (jwks_url shared_secret listen admin_listen : Str) (d : Disk)
      → d.temp ≡ none
      → Seeded a
          (seed embedded a.absolute jwks_url shared_secret listen admin_listen)
          d.config
          (seed_config a jwks_url shared_secret listen admin_listen d)
  unfolding seed_config
  seed_config-Seeded jwks_url shared_secret listen admin_listen d t =
      let r = seed embedded a.absolute jwks_url shared_secret listen admin_listen in
      let P = Seeded a r d.config in
      if_both P (not a.second_stat) (inl refl, inl t)
        (if_either P (exists d.config) (λ there. (inl refl, inl t))
          (λ absent. write_seed-Seeded r d t (exists-none d.config absent)))

  -- Whatever call fails and whatever other processes do to the path: a file that the first look
  -- finds is left as it is; with an error the path is as the others left it, and no temporary file
  -- remains unless it could not be removed; without an error, and with no file at the start,
  -- neither the start nor the last look found a file, and the path holds the encoded document of
  -- the seed. There is no temporary file before.
  pub ensure_config-Left :
      (jwks_url shared_secret listen admin_listen : Str) (d : Disk)
      → d.temp ≡ none
      → Left a
          (seed embedded a.absolute
            (trim_space jwks_url)
            (trim_space shared_secret)
            listen
            admin_listen)
          d.config
          (ensure_config a jwks_url shared_secret listen admin_listen d)
  unfolding ensure_config
  ensure_config-Left jwks_url shared_secret listen admin_listen d t =
      let r =
        seed embedded a.absolute (trim_space jwks_url) (trim_space shared_secret) listen
          admin_listen in
      let P = Left a r d.config in
      if_both P (not a.first_stat) (inl (refl, t)) (
        if_either P (exists d.config) (λ there. inl (refl, ground (arith, there), t))
          (λ absent. if_both P (is_blank jwks_url && is_blank shared_secret) (inl (refl, t)) (
            if_both P (not (is_blank jwks_url) && not (is_blank shared_secret)) (inl (refl, t)) (
              Seeded-Left r d.config (exists-none d.config absent) _ (
                seed_config-Seeded (trim_space jwks_url) (trim_space shared_secret) listen
                  admin_listen (record d { config = a.others_before_seed d.config }) t)))))
