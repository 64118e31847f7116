-- ===== src/Store/Upsert/Validity.antt =====
-- The writes of internal/store/upsert.go keep the tables well formed.
use ulsync_server.Prelude.{
  ℕ, ◌+◌, ◌≤◌, ◌≡◌, refl, ap, subst, Result, err, Result-cases, Bool, none, some, List, [], ◌∷◌,
  ◌++◌, Str, ok, str_eq_iff, arith, inl, inr, Bool-cases, Option-cases, All, All-append, All-map,
  Pairwise, Pairwise-snoc,
}
use ulsync_server.Store.Conflict.{where_clause}
use ulsync_server.Store.Envelope.{Envelope, key_of, ranks_of}
use ulsync_server.Store.Db.{
  Row, Db, Driver, StoreError, allocate_seq, find_row, replace_row, next_seq, bump_seq, max_int64,
}
use ulsync_server.Store.Db.Rows.{next_seq-bump_seq, find_row-key}
use ulsync_server.Store.Db.Valid.{
  Apart, Numbered, IsValid, Below, All-replace_row, Pairwise-replace_row, Apart-snoc,
}
use ulsync_server.Store.Upsert.{
  inserted, updated, upsert_envelope, upsert_one_in_tx, upsert_loop, finish, upsert_many,
}
use ulsync_server.Store.Upsert.Spec.{apply_one}
use ulsync_server.Store.Upsert.Outcome.{upsert_one_in_tx-ok}

-- The three shapes of the table after the statement.
upsert_envelope-shape :
    (u : Str) (seq : ℕ) (e : Envelope) (rows : List Row) (P : List Row → Type 0)
    → (find_row u (key_of e) rows ≡ none
        → P (rows ++ record { user_id = u; env = inserted seq e } ∷ []))
    → ((old : Envelope)
        → find_row u (key_of e) rows ≡ some old
        → P (replace_row u (key_of e) (updated seq e old) rows))
    → P rows
    → P (upsert_envelope u seq e rows).0
unfolding upsert_envelope
upsert_envelope-shape u seq e rows P new old same =
    elim (Option-cases (find_row u (key_of e) rows)) [
      | inl absent ↦ rw (absent, upsert_envelope) (new absent)
      | inr (env, found) ↦ elim (Bool-cases (where_clause (ranks_of e) (ranks_of env))) [
        | inl won ↦ rw (found, upsert_envelope, won) (old env found)
        | inr lost ↦ rw (found, upsert_envelope, lost) same
      ]
    ]

module _ (u : Str) (e : Envelope) (db : Db) (v : IsValid db) where
  abbrev n : ℕ
  n = next_seq u db.users

  rows-Below : All (Below u n) db.envelopes
  rows-Below =
      All-map (Numbered db.users) (Below u n)
        (λ r h same. rw (← ap (λ w. next_seq w db.users) same) h.1) db.envelopes v.numbered

  keep_number : (r : Row) → Numbered db.users r → Numbered (bump_seq u db.users) r
  keep_number r h = (h.0, ground (arith, h.1, next_seq-bump_seq u r.user_id db.users))

  new_number :
      (r : Row) → r.user_id ≡ u → r.env.server_seq ≡ n + 1 → Numbered (bump_seq u db.users) r
  new_number r same seq = ground (
    arith,
    same,
    seq,
    next_seq-bump_seq u r.user_id db.users,
    str_eq_iff u r.user_id,
    ap (λ w. next_seq w db.users) same,
  )

  rows-Apart : Pairwise Apart (upsert_envelope u (n + 1) e db.envelopes).0
  rows-Apart =
      upsert_envelope-shape u (n + 1) e db.envelopes (Pairwise Apart)
        (λ absent. Pairwise-snoc Apart db.envelopes _ v.apart (
          unfold inserted in
          Apart-snoc u (key_of e) (inserted (n + 1) e) n refl (omega arith) db.envelopes absent
            rows-Below))
        (λ old found.
          unfold updated in
          Pairwise-replace_row u (key_of e) (updated (n + 1) e old) n
            (find_row-key u (key_of e) db.envelopes found) (omega arith) db.envelopes v.apart
            rows-Below)
        v.apart

  rows-Numbered : All (Numbered (bump_seq u db.users)) (upsert_envelope u (n + 1) e db.envelopes).0
  rows-Numbered =
      let kept : All (Numbered (bump_seq u db.users)) db.envelopes =
        All-map (Numbered db.users) _ keep_number db.envelopes v.numbered in
      upsert_envelope-shape u (n + 1) e db.envelopes (All (Numbered (bump_seq u db.users)))
        (λ absent. All-append _ db.envelopes _ kept (
          unfold inserted in
              new_number (record { user_id = u; env = inserted (n + 1) e }) refl refl,
          tt,
        ))
        (λ old found.
          All-replace_row u (key_of e) (updated (n + 1) e old) (Numbered (bump_seq u db.users))
            (λ r same f.
              unfold updated in new_number (record r { env = updated (n + 1) e old }) same refl)
            db.envelopes kept)
        kept

  pub apply_one-IsValid : next_seq u db.users + 1 ≤ max_int64 → IsValid (apply_one u e db).0
  unfolding apply_one
  apply_one-IsValid room = record {
    apart = rows-Apart;
    numbered = rows-Numbered;
    counted =
        λ w. ground (arith, v.counted w, next_seq-bump_seq u w db.users, str_eq_iff u w, room);
  }

one_room :
    (d : Driver) (i : ℕ) (u : Str) (e : Envelope) (db : Db) {r : Db × Bool}
    → upsert_one_in_tx d i u e db ≡ ok r
    → next_seq u db.users + 1 ≤ max_int64
unfolding upsert_one_in_tx allocate_seq
one_room d i u e db h = ground arith

one_IsValid :
    (d : Driver) (i : ℕ) (u : Str) (e : Envelope) (db : Db) {r : Db × Bool}
    → upsert_one_in_tx d i u e db ≡ ok r
    → IsValid db
    → IsValid r.0
one_IsValid d i u e db h v =
    rw (upsert_one_in_tx-ok d i u e db h) (apply_one-IsValid u e db v (one_room d i u e db h))

loop_IsValid :
    (d : Driver) (i : ℕ) (u : Str) (es : List Envelope) (db : Db) {r : Db × List Bool}
    → upsert_loop d i u es db ≡ ok r
    → IsValid db
    → IsValid r.0
unfolding upsert_loop
loop_IsValid d i u [] db {r = r} h v = let same : db ≡ r.0 = ground arith in subst IsValid same v
loop_IsValid d i u (e ∷ es) db {r = r} h v = elim (Result-cases (upsert_one_in_tx d i u e db)) [
  | inl (p, one) ↦ elim (Result-cases (upsert_loop d (i + 1) u es p.0)) [
    | inl (q, rest) ↦
        let same : q.0 ≡ r.0 = ground arith in
        subst IsValid same (loop_IsValid d (i + 1) u es p.0 rest (one_IsValid d i u e db one v))
    | inr (x, bad) ↦ absurd (ground arith)
  ]
  | inr (x, bad) ↦ absurd (ground arith)
]

-- Whatever the driver does, UpsertMany keeps the tables well formed: keys and the numbers of one
-- user are unique, and every number is between 1 and the counter of its user, which is an int64.
pub upsert_many-IsValid :
    (d : Driver) (u : Str) (es : List Envelope) (db : Db)
    → IsValid db
    → IsValid (upsert_many d u es db).0
unfolding upsert_many
upsert_many-IsValid d u [] db v = v
upsert_many-IsValid d u (e ∷ es) db v = elim (Bool-cases d.begins) [
  | inr off ↦ simp off v
  | inl on ↦ simp on (finish_IsValid (upsert_loop d 0 u (e ∷ es) db) refl)
]
  where
    finish_IsValid :
        (r : Result StoreError (Db × List Bool))
        → upsert_loop d 0 u (e ∷ es) db ≡ r
        → IsValid (finish d db r).0
    finish_IsValid (err x) h = v
    finish_IsValid (ok p) h = elim (Bool-cases d.commits) [
      | inl kept ↦ simp kept (loop_IsValid d 0 u (e ∷ es) db h v)
      | inr off ↦ simp off v
    ]
