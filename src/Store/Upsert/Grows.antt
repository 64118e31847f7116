-- ===== src/Store/Upsert/Grows.antt =====
-- What a write of internal/store/upsert.go may do to the rows of a user, as a cursor sees it.
use ulsync_server.Prelude.{
  ℕ, ◌+◌, ◌≤◌, ◌<◌, ◌≡◌, refl, ap, ◌∙◌, ◌⊎◌, inl, inr, some, List, [], ◌∷◌, Str, arith, Bool-cases,
  Option-cases,
}
use ulsync_server.Store.Conflict.{wins}
use ulsync_server.Store.Envelope.{Envelope, Key, key_of, ranks_of}
use ulsync_server.Store.Db.{Db, find_row, next_seq}
use ulsync_server.Store.Db.Rows.{same_key}
use ulsync_server.Store.Upsert.Spec.{apply_one, apply_all, settle}
use ulsync_server.Store.Upsert.Lww.{find_row-apply_one, next_seq-apply_one, same_key-eq}

-- A row is the one before, or a new one above the number.
abbrev pub Fresher : ℕ → Str → Key → Db → Db → Type 0
Fresher n u k db db' =
    (find_row u k db'.envelopes ≡ find_row u k db.envelopes)
    ⊎ ((e : Envelope) × (find_row u k db'.envelopes ≡ some e) × (n < e.server_seq))

-- The counter of the user does not fall, and what changes has a number above the counter before.
pub record Grows (u : Str) (db db' : Db) : Type 0 where
  pub counter : next_seq u db.users ≤ next_seq u db'.users
  pub rows : (k : Key) → Fresher (next_seq u db.users) u k db db'

module _ (u : Str) where
  pub Grows-same :
      (db db' : Db) → db'.envelopes ≡ db.envelopes → db'.users ≡ db.users → Grows u db db'
  Grows-same db db' e f = record {
    counter = omega (arith, ap (next_seq u) f);
    rows = λ k. inl (ap (find_row u k) e);
  }

  pub Grows-trans : (a b c : Db) → Grows u a b → Grows u b c → Grows u a c
  Grows-trans a b c g h = record {
    counter = omega (arith, g.counter, h.counter);
    rows = λ k. elim (h.rows k) [
      | inr (e, found, above) ↦ inr (e, found, omega (arith, g.counter))
      | inl same ↦ elim (g.rows k) [
        | inl before ↦ inl (same ∙ before)
        | inr (e, found, above) ↦ inr (e, same ∙ found, above)
      ]
    ];
  }

  -- What `settle` leaves is what was there, or the new row.
  settle-Fresher :
      (v : Str) (k : Key) (e : Envelope) (db : Db) (n : ℕ)
      → (settle (find_row v k db.envelopes) n e ≡ find_row v k db.envelopes)
        ⊎ ((x : Envelope) × (settle (find_row v k db.envelopes) n e ≡ some x) × (x.server_seq ≡ n))
  unfolding settle
  settle-Fresher v k e db n = elim (Option-cases (find_row v k db.envelopes)) [
    | inl absent ↦ inr (record e { server_seq = n }, ground (arith, absent), refl)
    | inr (old, found) ↦ elim (Bool-cases (wins (ranks_of e) (ranks_of old))) [
      | inl won ↦ inr (
        record e { created_at_ms = old.created_at_ms; server_seq = n },
        ground (arith, found, won),
        refl,
      )
      | inr lost ↦ inl (ground (arith, found, lost))
    ]
  ]

  apply_one-Fresher :
      (v : Str) (e : Envelope) (db : Db) (k : Key)
      → Fresher (next_seq u db.users) u k db (apply_one v e db).0
  apply_one-Fresher v e db k = elim (Bool-cases (same_key v (key_of e) u k)) [
    | inr other ↦ inl (rw (find_row-apply_one v e db u k, other) refl)
    | inl here ↦
        let (own, key) = same_key-eq v u (key_of e) k here in
        let at : settle (find_row v (key_of e) db.envelopes) (next_seq v db.users + 1) e
            ≡ settle (find_row u k db.envelopes) (next_seq u db.users + 1) e =
          λ i. settle (find_row (own i) (key i) db.envelopes) (next_seq (own i) db.users + 1) e in
        let now : find_row u k (apply_one v e db).0.envelopes
            ≡ settle (find_row u k db.envelopes) (next_seq u db.users + 1) e =
          rw (find_row-apply_one v e db u k, here) at in
        elim (settle-Fresher u k e db (next_seq u db.users + 1)) [
          | inl same ↦ inl (now ∙ same)
          | inr (x, set, seq) ↦ inr (x, now ∙ set, omega (arith, seq))
        ]
  ]

  pub apply_one-Grows : (v : Str) (e : Envelope) (db : Db) → Grows u db (apply_one v e db).0
  apply_one-Grows v e db = record {
    counter = ground (arith, next_seq-apply_one v e db u);
    rows = apply_one-Fresher v e db;
  }

  -- A batch of any user moves no row of a user but to a number above the counter.
  pub apply_all-Grows : (v : Str) (es : List Envelope) (db : Db) → Grows u db (apply_all v es db).0
  unfolding apply_all
  apply_all-Grows v [] db = Grows-same db db refl refl
  apply_all-Grows v (e ∷ es) db =
      Grows-trans db (apply_one v e db).0 (apply_all v es (apply_one v e db).0).0
        (apply_one-Grows v e db) (apply_all-Grows v es (apply_one v e db).0)
