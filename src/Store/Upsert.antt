-- ===== src/Store/Upsert.antt =====
-- internal/store/upsert.go: last-write-wins writes, alone and in a batch of one transaction.
pub mod Spec
pub mod Lww
pub mod Convergence
pub mod Outcome
pub mod Validity
pub mod Quiet
pub mod Grows
use ulsync_server.Prelude.{
  ℕ, ◌+◌, Bool, true, false, Option, none, some, List, [], ◌∷◌, ◌++◌, Str, Result, ok, err, ◌>>=◌,
  if◌then◌else◌,
}
use ulsync_server.Store.Conflict.{where_clause}
use ulsync_server.Store.Envelope.{Envelope, key_of, ranks_of}
use ulsync_server.Store.Db.{
  Row, Db, Driver, StoreError, failed, begin, upsert, commit, empty_slice, find_row, replace_row,
  allocate_seq,
}

-- The row that VALUES (…) names; the client's `server_seq` is ignored.
unfoldable pub inserted : ℕ → Envelope → Envelope
inserted seq e = record e { server_seq = seq }

-- DO UPDATE SET …: every column but the key and `created_at_ms`.
unfoldable pub updated : ℕ → Envelope → Envelope → Envelope
updated seq excluded old = record old {
  entity_type = excluded.entity_type;
  last_edited_at_ms = excluded.last_edited_at_ms;
  revision = excluded.revision;
  source_id = excluded.source_id;
  flags = excluded.flags;
  schema_version = excluded.schema_version;
  server_seq = seq;
  payload_encoding = excluded.payload_encoding;
  payload = excluded.payload;
}

-- `upsertEnvelopeSQL`; the Boolean says whether RETURNING has a row.
unfoldable pub upsert_envelope : Str → ℕ → Envelope → List Row → List Row × Bool
unfolding inserted updated
upsert_envelope user_id seq e rows = elim (find_row user_id (key_of e) rows) [
  | none ↦ (rows ++ record { user_id = user_id; env = inserted seq e } ∷ [], true)
  | some old ↦
      if where_clause (ranks_of e) (ranks_of old)
      then (replace_row user_id (key_of e) (updated seq e old) rows, true)
      else (rows, false)
]

-- `upsertOneInTx`, for the i-th envelope of the transaction: the tables as the transaction sees
-- them, and `applied`.
unfoldable pub upsert_one_in_tx : Driver → ℕ → Str → Envelope → Db → Result StoreError (Db × Bool)
unfolding upsert_envelope
upsert_one_in_tx driver i user_id e db = do
  (db', seq) ← allocate_seq (driver.allocates i) user_id db
  let written = upsert_envelope user_id seq e db'.envelopes
  if driver.upserts i
      then ok (record db' { envelopes = written.0 }, written.1)
      else err (failed upsert)

-- The loop of `UpsertMany`.
unfoldable pub upsert_loop :
    Driver → ℕ → Str → List Envelope → Db → Result StoreError (Db × List Bool)
upsert_loop driver i user_id [] db = ok (db, [])
upsert_loop driver i user_id (e ∷ es) db = do
  (db', one) ← upsert_one_in_tx driver i user_id e db
  (db'', rest) ← upsert_loop driver (i + 1) user_id es db'
  ok (db'', one ∷ rest)

-- The end of a transaction: Commit, or Rollback, which leaves the tables as they were.
unfoldable pub finish {ℓ} :
    {A : Type ℓ} → Driver → Db → Result StoreError (Db × A) → Db × Result StoreError A
finish driver db (err e) = (db, err e)
finish driver db (ok (db', a)) = if driver.commits then (db', ok a) else (db, err (failed commit))

-- `Upsert`
unfoldable pub upsert_one : Driver → Str → Envelope → Db → Db × Result StoreError Bool
unfolding finish
upsert_one driver user_id e db =
    if driver.begins
    then finish driver db (upsert_one_in_tx driver 0 user_id e db)
    else (db, err (failed begin))

-- `UpsertMany`
unfoldable pub upsert_many : Driver → Str → List Envelope → Db → Db × Result StoreError (List Bool)
unfolding finish
upsert_many driver user_id [] db = (db, err empty_slice)
upsert_many driver user_id (e ∷ es) db =
    if driver.begins
    then finish driver db (upsert_loop driver 0 user_id (e ∷ es) db)
    else (db, err (failed begin))
