-- ===== src/Store/Migrate/Once.antt =====
-- Which migrations internal/store/migrate.go applies, and that it applies none twice.
use mathlib.Core.List.{append_assoc, append-nil}
use ulsync_server.Prelude.{
  ℕ, ◌≡◌, refl, subst, sym, ap, ◌∙◌, ◌⊎◌, inl, inr, true, false, Option, none, some, List, [], ◌∷◌,
  ◌++◌, Str, arith, leb, Bool-cases, Option-cases, if◌then◌else◌,
}
use ulsync_server.Store.Migrate.{
  Migration, MigrateError, failed_migration, Schema, Engine, split_sql_statements, run_statements,
  record_version, apply_migration, apply_loop,
}

-- The rows of `schema_migrations`, none for a missing table.
abbrev pub applied : Schema → List ℕ
applied s = elim s.versions [ none ↦ [] | some vs ↦ vs ]

-- The schema after a statement.
abbrev with_statement : Engine → Str → Schema → Schema
with_statement engine q s = record {
  versions = elim s.versions [
    | none ↦ (if engine.creates q then some [] else none)
    | some vs ↦ some vs
  ];
  statements = s.statements ++ q ∷ [];
}

with_statement-applied :
    (engine : Engine) (q : Str) (s : Schema) → applied (with_statement engine q s) ≡ applied s
with_statement-applied engine q s = ground arith

record_version-applied :
    (engine : Engine) (version : ℕ) (s : Schema) {t : Schema}
    → record_version engine version s ≡ some t
    → (applied t ≡ version ∷ applied s) × (t.statements ≡ s.statements)
unfolding record_version
record_version-applied engine version s {t = t} h = elim (Option-cases s.versions) [
  | inl missing ↦ absurd (ground (arith, missing))
  | inr (vs, present) ↦
      let e : record s { versions = some (version ∷ vs) } ≡ t = ground (arith, present) in
      rw (← e) (ground (arith, present), refl)
]

run_statements-applied :
    (engine : Engine) (qs : List Str) (s : Schema) {t : Schema}
    → run_statements engine qs s ≡ some t
    → (applied t ≡ applied s) × (t.statements ≡ s.statements ++ qs)
unfolding run_statements
run_statements-applied engine [] s {t = t} h =
    let e : s ≡ t = ground arith in
    (ap applied (sym e), ap (λ (x : Schema). x.statements) (sym e) ∙ sym (append-nil s.statements))
run_statements-applied engine (q ∷ qs) s {t = t} h = elim (Bool-cases (engine.runs q)) [
  | inr refused ↦ absurd (ground arith)
  | inl ran ↦
      let s' = with_statement engine q s in
      let (v, l) = run_statements-applied engine qs s' {t = t} (ground arith) in
      (v ∙ with_statement-applied engine q s, l ∙ append_assoc s.statements (q ∷ []) qs)
]

-- A migration is applied as a whole: its statements are carried out and its version is recorded.
pub apply_migration-some :
    (engine : Engine) (m : Migration) (s : Schema) {t : Schema}
    → apply_migration engine m s ≡ some t
    → (applied t ≡ m.version ∷ applied s)
      × (t.statements ≡ s.statements ++ split_sql_statements m.sql)
unfolding apply_migration
apply_migration-some engine m s {t = t} h =
    elim (Option-cases (run_statements engine (split_sql_statements m.sql) s)) [
      | inl refused ↦ absurd (ground (arith, refused))
      | inr (ran, e) ↦ elim (Option-cases (record_version engine m.version ran)) [
        | inl refused ↦ absurd (ground (arith, e, refused))
        | inr (recorded, f) ↦
            let same : recorded ≡ t = ground (arith, e, f) in
            let (v, l) = run_statements-applied engine (split_sql_statements m.sql) s e in
            let (v', l') = record_version-applied engine m.version ran f in
            rw (← same) (v' ∙ ap (λ (vs : List ℕ). m.version ∷ vs) v, l' ∙ l)
      ]
    ]

-- The migrations that are due: each above the version before it.
unfoldable pub due : ℕ → List Migration → List Migration
due current [] = []
due current (m ∷ ms) = elim (leb m.version current) [
  | true ↦ due current ms
  | false ↦ m ∷ due m.version ms
]

unfoldable pub statements_of : List Migration → List Str
statements_of [] = []
statements_of (m ∷ ms) = split_sql_statements m.sql ++ statements_of ms

-- The recorded versions after some migrations, the newest first.
unfoldable pub record_all : List Migration → List ℕ → List ℕ
record_all [] vs = vs
record_all (m ∷ ms) vs = record_all ms (m.version ∷ vs)

-- What a run leaves: some migrations in full, from the first that is due, and all of them if it
-- returns no error.
pub record Progress (current : ℕ) (ms : List Migration) (s t : Schema) (e : Option MigrateError)
    : Type 0 where
  pub done : List Migration
  pub rest : List Migration
  pub split : due current ms ≡ done ++ rest
  pub statements : t.statements ≡ s.statements ++ statements_of done
  pub versions : applied t ≡ record_all done (applied s)
  pub all_done : (rest ≡ []) ⊎ ((x : MigrateError) × (e ≡ some x))

pub nothing_done :
    (current : ℕ) (ms : List Migration) (s : Schema) (e : Option MigrateError)
    → (due current ms ≡ []) ⊎ ((x : MigrateError) × (e ≡ some x))
    → Progress current ms s s e
nothing_done current ms s e h = record {
  done = [];
  rest = due current ms;
  split = refl;
  statements = unfold statements_of in sym (append-nil s.statements);
  versions = unfold record_all in refl;
  all_done = h;
}

one_more :
    (engine : Engine) (current : ℕ) (m : Migration) (ms : List Migration) (s s' t : Schema)
    (e : Option MigrateError)
    → leb m.version current ≡ false
    → apply_migration engine m s ≡ some s'
    → Progress m.version ms s' t e
    → Progress current (m ∷ ms) s t e
one_more engine current m ms s s' t e late ran p =
    let (v, l) = apply_migration-some engine m s ran in
    record {
      done = m ∷ p.done;
      rest = p.rest;
      split = unfold due in ground (arith, late, p.split);
      statements =
          unfold statements_of in
          (p.statements
            ∙ ap (λ qs. qs ++ statements_of p.done) l
            ∙ append_assoc s.statements (split_sql_statements m.sql) (statements_of p.done));
      versions = unfold record_all in (p.versions ∙ ap (record_all p.done) v);
      all_done = p.all_done;
    }

skipped :
    (current : ℕ) (m : Migration) (ms : List Migration) (s t : Schema) (e : Option MigrateError)
    → leb m.version current ≡ true
    → Progress current ms s t e
    → Progress current (m ∷ ms) s t e
skipped current m ms s t e early p = record {
  done = p.done;
  rest = p.rest;
  split = unfold due in ground (arith, early, p.split);
  statements = p.statements;
  versions = p.versions;
  all_done = p.all_done;
}

abbrev pub Ran : ℕ → List Migration → Schema → Schema × Option MigrateError → Type 0
Ran current ms s (t, e) = Progress current ms s t e

pub apply_loop-Progress :
    (engine : Engine) (current : ℕ) (ms : List Migration) (s : Schema)
    → Ran current ms s (apply_loop engine current ms s)
unfolding apply_loop
apply_loop-Progress engine current [] s = nothing_done current [] s none (inl (unfold due in refl))
apply_loop-Progress engine current (m ∷ ms) s = elim (Bool-cases (leb m.version current)) [
  | inl early ↦
      let r = apply_loop engine current ms s in
      let e : r ≡ apply_loop engine current (m ∷ ms) s = ground (arith, early) in
      subst (Ran current (m ∷ ms) s) e
        (skipped current m ms s r.0 r.1 early (apply_loop-Progress engine current ms s))
  | inr late ↦ elim (Option-cases (apply_migration engine m s)) [
    | inl failed ↦
        let r : Schema × Option MigrateError = (s, some (failed_migration m.name)) in
        let e : r ≡ apply_loop engine current (m ∷ ms) s = ground (arith, late, failed) in
        subst (Ran current (m ∷ ms) s) e
          (nothing_done current (m ∷ ms) s r.1 (inr (failed_migration m.name, refl)))
    | inr (s', ran) ↦
        let r = apply_loop engine m.version ms s' in
        let e : r ≡ apply_loop engine current (m ∷ ms) s = ground (arith, late, ran) in
        subst (Ran current (m ∷ ms) s) e (
          one_more engine current m ms s s' r.0 r.1 late ran
            (apply_loop-Progress engine m.version ms s'))
  ]
]
