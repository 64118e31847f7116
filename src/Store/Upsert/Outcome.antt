-- ===== src/Store/Upsert/Outcome.antt =====
-- What `Upsert` and `UpsertMany` of internal/store/upsert.go answer, and what they leave when the
-- driver refuses a statement.
use ulsync_server.Prelude.{
  ℕ, ◌+◌, ◌≤◌, ◌≡◌, refl, ◌⊎◌, Bool, true, List, [], ◌∷◌, Str, str_eq_refl, arith, ok, err,
  Result-cases, length, inl, inr, Bool-cases, map_result,
}
use ulsync_server.Store.Envelope.{Envelope}
use ulsync_server.Store.Db.{
  Db, Driver, StoreError, failed, begin, commit, empty_slice, next_seq, allocate_seq, max_int64,
}
use ulsync_server.Store.Upsert.{upsert_one_in_tx, upsert_loop, upsert_one, upsert_many}
use ulsync_server.Store.Upsert.Spec.{apply_one, apply_all}
use ulsync_server.Store.Upsert.Lww.{next_seq-apply_one}

-- The driver carries out every statement.
pub record Answers (d : Driver) : Type 0 where
  pub begins : d.begins ≡ true
  pub allocates : (i : ℕ) → d.allocates i ≡ true
  pub upserts : (i : ℕ) → d.upserts i ≡ true
  pub commits : d.commits ≡ true

pub upsert_one_in_tx-ok :
    (d : Driver) (i : ℕ) (u : Str) (e : Envelope) (db : Db) {r : Db × Bool}
    → upsert_one_in_tx d i u e db ≡ ok r
    → r ≡ apply_one u e db
unfolding upsert_one_in_tx allocate_seq apply_one
upsert_one_in_tx-ok d i u e db h = ground arith

upsert_loop-ok :
    (d : Driver) (i : ℕ) (u : Str) (es : List Envelope) (db : Db) {r : Db × List Bool}
    → upsert_loop d i u es db ≡ ok r
    → r ≡ apply_all u es db
unfolding upsert_loop apply_all
upsert_loop-ok d i u [] db h = ground arith
upsert_loop-ok d i u (e ∷ es) db h = elim (Result-cases (upsert_one_in_tx d i u e db)) [
  | inl (p, one) ↦ elim (Result-cases (upsert_loop d (i + 1) u es p.0)) [
    | inl (q, rest) ↦
        ground (arith, upsert_one_in_tx-ok d i u e db one, upsert_loop-ok d (i + 1) u es p.0 rest)
    | inr (x, bad) ↦ ground arith
  ]
  | inr (x, bad) ↦ ground arith
]

upsert_one_in_tx-Answers :
    (d : Driver) (i : ℕ) (u : Str) (e : Envelope) (db : Db)
    → Answers d
    → next_seq u db.users + 1 ≤ max_int64
    → upsert_one_in_tx d i u e db ≡ ok (apply_one u e db)
unfolding upsert_one_in_tx allocate_seq apply_one
upsert_one_in_tx-Answers d i u e db a h = ground (arith, a.allocates i, a.upserts i)

upsert_loop-Answers :
    (d : Driver) (i : ℕ) (u : Str) (es : List Envelope) (db : Db)
    → Answers d
    → next_seq u db.users + length es ≤ max_int64
    → upsert_loop d i u es db ≡ ok (apply_all u es db)
unfolding upsert_loop apply_all
upsert_loop-Answers d i u [] db a h = refl
upsert_loop-Answers d i u (e ∷ es) db a h = ground (
  arith,
  upsert_one_in_tx-Answers d i u e db a,
  upsert_loop-Answers d (i + 1) u es (apply_one u e db).0 a,
  next_seq-apply_one u e db u,
  str_eq_refl u,
)

-- A call of UpsertMany leaves the tables and the flags of the whole batch, or returns an error and
-- leaves the tables as they were.
pub upsert_many-atomic :
    (d : Driver) (u : Str) (es : List Envelope) (db : Db)
    → (upsert_many d u es db ≡ ((apply_all u es db).0, ok (apply_all u es db).1))
      ⊎ ((x : StoreError) × (upsert_many d u es db ≡ (db, err x)))
unfolding upsert_many
upsert_many-atomic d u [] db = inr (empty_slice, refl)
upsert_many-atomic d u (e ∷ es) db = elim (Bool-cases d.begins) [
  | inr off ↦ inr (failed begin, ground arith)
  | inl on ↦ elim (Result-cases (upsert_loop d 0 u (e ∷ es) db)) [
    | inr (x, bad) ↦ inr (x, ground arith)
    | inl (r, done) ↦ elim (Bool-cases d.commits) [
      | inr off ↦ inr (failed commit, ground arith)
      | inl kept ↦ inl (ground (arith, upsert_loop-ok d 0 u (e ∷ es) db done))
    ]
  ]
]

-- A batch that is not empty is applied if the driver carries out every statement and the counter
-- has room.
pub upsert_many-Answers :
    (d : Driver) (u : Str) (e : Envelope) (es : List Envelope) (db : Db)
    → Answers d
    → next_seq u db.users + length (e ∷ es) ≤ max_int64
    → upsert_many d u (e ∷ es) db ≡ ((apply_all u (e ∷ es) db).0, ok (apply_all u (e ∷ es) db).1)
unfolding upsert_many
upsert_many-Answers d u e es db a h =
    ground (arith, a.begins, a.commits, upsert_loop-Answers d 0 u (e ∷ es) db a h)

-- `Upsert` is `UpsertMany` of one envelope.
pub upsert_one-upsert_many :
    (d : Driver) (u : Str) (e : Envelope) (db : Db)
    → upsert_many d u (e ∷ []) db
      ≡ ((upsert_one d u e db).0, map_result (λ (b : Bool). b ∷ []) (upsert_one d u e db).1)
unfolding upsert_many upsert_one upsert_loop
upsert_one-upsert_many d u e db = ground (arith, upsert_one_in_tx d 0 u e db)
