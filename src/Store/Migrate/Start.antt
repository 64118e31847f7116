-- ===== src/Store/Migrate/Start.antt =====
-- The start of the process over internal/store/migrate.go, once and again.
use ulsync_server.Prelude.{
  ℕ, ◌≤◌, ◌<◌, ◌≡◌, refl, subst, ap, ◌∙◌, inl, inr, true, false, Option, none, some, List, [], ◌∷◌,
  arith, leb, ok, Result-cases, Bool-cases, Option-cases, All,
}
use ulsync_server.Store.Migrate.{
  Entry, Migration, MigrateError, none_found, no_version, Schema, Engine, load_migrations, max_of,
  applied_migration_version, apply_migration, apply_loop, apply_loaded, apply_migrations,
}
use ulsync_server.Store.Migrate.Once.{
  applied, apply_migration-some, due, Progress, Ran, nothing_done, apply_loop-Progress,
}

version_read :
    (engine : Engine) (s : Schema)
    → engine.reads ≡ true
    → applied_migration_version engine s ≡ some (max_of (applied s))
unfolding applied_migration_version max_of
version_read engine s reads = elim (Option-cases s.versions) [
  | inl missing ↦ ground (arith, reads, missing)
  | inr (vs, present) ↦ ground (arith, reads, present)
]

version_unread :
    (engine : Engine) (s : Schema)
    → engine.reads ≡ false
    → applied_migration_version engine s ≡ none
unfolding applied_migration_version
version_unread engine s fails = ground (arith, fails)

apply_loaded-Progress :
    (engine : Engine) (ms : List Migration) (s : Schema)
    → Ran (max_of (applied s)) ms s (apply_loaded engine (ok ms) s)
unfolding apply_loaded
apply_loaded-Progress engine [] s =
    nothing_done (max_of (applied s)) [] s (some none_found) (inl (unfold due in refl))
apply_loaded-Progress engine (m ∷ ms) s = elim (Bool-cases engine.reads) [
  | inl reads ↦
      let r = apply_loop engine (max_of (applied s)) (m ∷ ms) s in
      let e : r ≡ apply_loaded engine (ok (m ∷ ms)) s =
        ground (arith, version_read engine s reads) in
      subst (Ran (max_of (applied s)) (m ∷ ms) s) e
        (apply_loop-Progress engine (max_of (applied s)) (m ∷ ms) s)
  | inr fails ↦
      let r : Schema × Option MigrateError = (s, some no_version) in
      let e : r ≡ apply_loaded engine (ok (m ∷ ms)) s =
        ground (arith, version_unread engine s fails) in
      subst (Ran (max_of (applied s)) (m ∷ ms) s) e
        (nothing_done (max_of (applied s)) (m ∷ ms) s r.1 (inr (no_version, refl)))
]

-- A start over migrations that load carries out, from the recorded version on, some of the
-- migrations that are due, each as a whole and each above the one before, and all of them if it
-- returns no error.
pub apply_migrations-Progress :
    (engine : Engine) (entries : List Entry) (ms : List Migration) (s : Schema)
    → load_migrations entries ≡ ok ms
    → Progress
        (max_of (applied s))
        ms
        s
        (apply_migrations engine entries s).0
        (apply_migrations engine entries s).1
unfolding apply_migrations
apply_migrations-Progress engine entries ms s loaded = rw loaded (apply_loaded-Progress engine ms s)

max_of-cons : (v : ℕ) (vs : List ℕ) → max_of vs < v → max_of (v ∷ vs) ≡ v
unfolding max_of
max_of-cons v vs h = ground arith

apply_loop-bound :
    (engine : Engine) (current : ℕ) (ms : List Migration) (s t : Schema)
    → max_of (applied s) ≡ current
    → apply_loop engine current ms s ≡ (t, none)
    → (current ≤ max_of (applied t)) × All (λ (m : Migration). m.version ≤ max_of (applied t)) ms
unfolding apply_loop
apply_loop-bound engine current [] s t top h =
    let e : s ≡ t = ap (λ (r : Schema × Option MigrateError). r.0) h in
    (subst (λ (x : Schema). current ≤ max_of (applied x)) e (omega (arith, top)), tt)
apply_loop-bound engine current (m ∷ ms) s t top h = elim (Bool-cases (leb m.version current)) [
  | inl early ↦
      let (low, rest) = apply_loop-bound engine current ms s t top (ground (arith, h, early)) in
      (low, (ground (arith, early, low), rest))
  | inr late ↦ elim (Option-cases (apply_migration engine m s)) [
    | inl failed ↦ absurd (ground (arith, h, late, failed))
    | inr (s', ran) ↦
        let raised : max_of (applied s') ≡ m.version =
          ap max_of (apply_migration-some engine m s ran).0
          ∙ max_of-cons m.version (applied s) (ground (arith, late, top)) in
        let (low, rest) =
          apply_loop-bound engine m.version ms s' t raised (ground (arith, h, late, ran)) in
        (ground (arith, late, low), (low, rest))
  ]
]

still :
    (engine : Engine) (current : ℕ) (ms : List Migration) (t : Schema)
    → All (λ (m : Migration). m.version ≤ current) ms
    → apply_loop engine current ms t ≡ (t, none)
unfolding apply_loop
still engine current [] t h = refl
still engine current (m ∷ ms) t h =
    let early : leb m.version current ≡ true = ground (arith, h.0) in
    ground (arith, early, still engine current ms t h.1)

apply_loaded-again :
    (engine later : Engine) (ms : List Migration) (s t : Schema)
    → apply_loaded engine (ok ms) s ≡ (t, none)
    → later.reads ≡ true
    → apply_loaded later (ok ms) t ≡ (t, none)
unfolding apply_loaded
apply_loaded-again engine later [] s t h reads = absurd (ground (arith, h))
apply_loaded-again engine later (m ∷ ms) s t h reads = elim (Bool-cases engine.reads) [
  | inr fails ↦ absurd (ground (arith, h, version_unread engine s fails))
  | inl read_once ↦
      let e : apply_loop engine (max_of (applied s)) (m ∷ ms) s ≡ (t, none) =
        ground (arith, h, version_read engine s read_once) in
      ground (
        arith,
        version_read later t reads,
        still later (max_of (applied t)) (m ∷ ms) t
            (apply_loop-bound engine (max_of (applied s)) (m ∷ ms) s t refl e).1,
      )
]

-- A start that returned no error is followed by starts that change nothing and return none, if they
-- can read the recorded version.
pub apply_migrations-again :
    (engine later : Engine) (entries : List Entry) (s t : Schema)
    → apply_migrations engine entries s ≡ (t, none)
    → later.reads ≡ true
    → apply_migrations later entries t ≡ (t, none)
unfolding apply_migrations apply_loaded
apply_migrations-again engine later entries s t h reads =
    elim (Result-cases (load_migrations entries)) [
      | inr (x, bad) ↦ absurd (ground (arith, h, bad))
      | inl (ms, good) ↦ rw good (apply_loaded-again engine later ms s t (simp good at h) reads)
    ]
