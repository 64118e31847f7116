-- ===== src/Store/Upsert/Quiet.antt =====
-- Writes of internal/store/upsert.go that leave a user's rows alone: those that apply nothing, and
-- those of other users.
use ulsync_server.Prelude.{
  ℕ, ◌+◌, ◌≡◌, refl, ap, ◌∙◌, false, List, [], ◌∷◌, ◌++◌, Str, str_eq, str_eq_iff, arith, any, inl,
  inr, Option-cases,
}
use ulsync_server.Store.Envelope.{Envelope, Key, key_of}
use ulsync_server.Store.Db.{Row, Db, is_row, find_row, replace_row, next_seq}
use ulsync_server.Store.Upsert.{inserted, updated, upsert_envelope}
use ulsync_server.Store.Upsert.Spec.{apply_one, apply_all}
use ulsync_server.Store.Since.{rows_after, order_by_seq, backlog}

upsert_envelope-unapplied :
    (u : Str) (seq : ℕ) (e : Envelope) (rows : List Row)
    → (upsert_envelope u seq e rows).1 ≡ false
    → (upsert_envelope u seq e rows).0 ≡ rows
unfolding upsert_envelope
upsert_envelope-unapplied u seq e rows h = ground arith

-- A batch of which nothing is applied leaves the rows as they were.
pub apply_all-unapplied :
    (u : Str) (es : List Envelope) (db : Db)
    → any (λ a. a) (apply_all u es db).1 ≡ false
    → (apply_all u es db).0.envelopes ≡ db.envelopes
unfolding apply_all apply_one
apply_all-unapplied u [] db h = refl
apply_all-unapplied u (e ∷ es) db h = ground (
  arith,
  upsert_envelope-unapplied u (next_seq u db.users + 1) e db.envelopes,
  apply_all-unapplied u es (apply_one u e db).0,
)

module _ (u v : Str) (other : str_eq u v ≡ false) (since : ℕ) where
  rows_after-append :
      (e : Envelope) (rows : List Row)
      → rows_after v since (rows ++ record { user_id = u; env = e } ∷ []) ≡ rows_after v since rows
  unfolding rows_after
  rows_after-append e [] = ground (arith, other)
  rows_after-append e (r ∷ rows) = ground (arith, rows_after-append e rows)

  rows_after-replace_row :
      (k : Key) (e : Envelope) (rows : List Row)
      → rows_after v since (replace_row u k e rows) ≡ rows_after v since rows
  unfolding rows_after replace_row is_row
  rows_after-replace_row k e [] = refl
  rows_after-replace_row k e (r ∷ rows) = ground (
    arith,
    other,
    rows_after-replace_row k e rows,
    str_eq_iff r.user_id u,
    str_eq_iff r.user_id v,
    str_eq_iff u v,
  )

  rows_after-upsert_envelope :
      (seq : ℕ) (e : Envelope) (rows : List Row)
      → rows_after v since (upsert_envelope u seq e rows).0 ≡ rows_after v since rows
  unfolding upsert_envelope
  rows_after-upsert_envelope seq e rows = elim (Option-cases (find_row u (key_of e) rows)) [
    | inl absent ↦ ground (arith, absent, rows_after-append (inserted seq e) rows)
    | inr (old, found) ↦
        ground (arith, found, rows_after-replace_row (key_of e) (updated seq e old) rows)
  ]

  rows_after-apply_all :
      (es : List Envelope) (db : Db)
      → rows_after v since (apply_all u es db).0.envelopes ≡ rows_after v since db.envelopes
  unfolding apply_all apply_one
  rows_after-apply_all [] db = refl
  rows_after-apply_all (e ∷ es) db =
      rows_after-apply_all es (apply_one u e db).0
      ∙ rows_after-upsert_envelope (next_seq u db.users + 1) e db.envelopes

  -- A batch of one user leaves the backlog of another as it was.
  pub backlog-apply_all :
      (es : List Envelope) (db : Db) → backlog v since (apply_all u es db).0 ≡ backlog v since db
  unfolding backlog
  backlog-apply_all es db = ap order_by_seq (rows_after-apply_all es db)

-- A batch of which nothing is applied leaves every backlog as it was.
pub backlog-unapplied :
    (u v : Str) (since : ℕ) (es : List Envelope) (db : Db)
    → any (λ a. a) (apply_all u es db).1 ≡ false
    → backlog v since (apply_all u es db).0 ≡ backlog v since db
unfolding backlog
backlog-unapplied u v since es db h =
    ap (λ rows. order_by_seq (rows_after v since rows)) (apply_all-unapplied u es db h)
