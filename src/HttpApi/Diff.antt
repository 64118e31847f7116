-- ===== src/HttpApi/Diff.antt =====
-- internal/httpapi/diff.go: POST /v1/sync/diff, which compares a client's ranks with the stored
-- ones. The JSON codec is not modelled, as in HttpApi/Push.antt.
pub mod Items
pub mod Report
pub mod Unpushable
use ulsync_server.Prelude.{
  ℕ, Bool, true, false, ◌||◌, Option, none, some, List, [], ◌∷◌, ◌++◌, Str, str_eq, ltb, Result, ok,
  err, length, if◌then◌else◌,
}
use ulsync_server.Prelude.Int.{ℤ, pos, ltb_ℤ}
use ulsync_server.Store.Conflict.{Ranks, wins}
use ulsync_server.Store.Envelope.{Key}
use ulsync_server.Store.Db.{Db, Driver, StoreError}
use ulsync_server.Store.KeyMap.{lookup, put}
use ulsync_server.Store.Ranks.{stored_ranks}
use ulsync_server.Store.Ranks.Answers.{asked}
use ulsync_server.HttpApi.Push.{
  Decoded, too_large, malformed, decoded, Field, id, part, source_id, last_edited_at_ms, revision,
  Response, bad_name, max_envelope_id_bytes, max_envelope_part_bytes, max_envelope_source_id_bytes,
}

abbrev pub max_diff_items : ℕ
max_diff_items = 500

-- `diffItem`
pub record DiffItem : Type 0 where
  pub id : Str
  pub part : Str
  pub last_edited_at_ms : ℤ
  pub revision : ℤ
  pub source_id : Str

-- `diffStaleEntry`, with the server's ranks
pub record StaleEntry : Type 0 where
  pub key : Key
  pub ranks : Ranks

pub data DiffBody : Type 0 where
  body_too_large invalid_json no_items too_many_items storage_unavailable : DiffBody
  invalid_item : Field → DiffBody
  diff_response : List Key → List StaleEntry → ℤ → DiffBody

abbrev pub item_key : DiffItem → Key
item_key item = record { id = item.id; part = item.part }

abbrev pub item_ranks : DiffItem → Ranks
item_ranks item = record {
  last_edited_at_ms = item.last_edited_at_ms;
  revision = item.revision;
  source_id = item.source_id;
}

-- `validateDiffItem`; `none` is its "".
unfoldable pub validate_diff_item : DiffItem → Option Field
validate_diff_item item =
    if bad_name item.id max_envelope_id_bytes
    then some id
    else if bad_name item.part max_envelope_part_bytes
    then some part
    else if bad_name item.source_id max_envelope_source_id_bytes
    then some source_id
    else if ltb_ℤ item.last_edited_at_ms (pos 0)
    then some last_edited_at_ms
    else if ltb_ℤ item.revision (pos 0)
    then some revision
    else none

-- The loop of `validateDiffItems`, over its `seen`, `order` and `incomingByKey`.
unfoldable pub validate_diff_items :
    List Key
    → List Key
    → List (Key × DiffItem)
    → List DiffItem
    → Result Field (List Key × List (Key × DiffItem))
validate_diff_items seen order incoming [] = ok (order, incoming)
validate_diff_items seen order incoming (item ∷ items) = elim (validate_diff_item item) [
  | some field ↦ err field
  | none ↦
      if asked (item_key item) seen
      then validate_diff_items seen order incoming items
      else validate_diff_items (item_key item ∷ seen) (order ++ item_key item ∷ [])
          (put (item_key item) item incoming) items
]

-- `incomingByKey[key]`: the zero item where the map has none.
unfoldable pub incoming_at : Key → List (Key × DiffItem) → DiffItem
incoming_at key incoming = elim (lookup key incoming) [
  | some item ↦ item
  | none ↦ record {
    id = [];
    part = [];
    last_edited_at_ms = pos 0;
    revision = pos 0;
    source_id = [];
  }
]

-- One round of the comparing loop, on the server's ranks.
unfoldable pub compare_key :
    Key → DiffItem → Option Ranks → List Key × List StaleEntry → List Key × List StaleEntry
compare_key key item none (missing, stale) = (key ∷ missing, stale)
compare_key key item (some server) (missing, stale) =
    if wins (item_ranks item) server
    then (missing, record { key = key; ranks = server } ∷ stale)
    else (missing, stale)

-- The loop that fills `resp.Missing` and `resp.Stale`.
unfoldable pub compare_keys :
    List Key → List (Key × DiffItem) → List (Key × Ranks) → List Key × List StaleEntry
unfolding compare_key incoming_at
compare_keys [] incoming stored = ([], [])
compare_keys (key ∷ order) incoming stored =
    compare_key key (incoming_at key incoming) (lookup key stored)
      (compare_keys order incoming stored)

unfoldable pub diff_error : ℕ → DiffBody → Response DiffBody
diff_error status body = record { status = status; body = body }

-- After `validateDiffItems`.
unfoldable pub diff_validated :
    Driver → Str → ℤ → Db → Result Field (List Key × List (Key × DiffItem)) → Response DiffBody
unfolding diff_error compare_keys
diff_validated driver user_id now db (err field) = diff_error 400 (invalid_item field)
diff_validated driver user_id now db (ok (order, incoming)) =
    elim (stored_ranks driver user_id order db) [
      | err e ↦ diff_error 503 storage_unavailable
      | ok stored ↦
          let (missing, stale) = compare_keys order incoming stored in
          record { status = 200; body = diff_response missing stale now }
    ]

-- `diffHandler`. It reads the tables and returns none.
unfoldable pub diff_handler : Driver → Str → ℤ → Decoded DiffItem → Db → Response DiffBody
unfolding diff_validated
diff_handler driver user_id now too_large db = diff_error 413 body_too_large
diff_handler driver user_id now malformed db = diff_error 400 invalid_json
diff_handler driver user_id now (decoded []) db = diff_error 400 no_items
diff_handler driver user_id now (decoded (i ∷ is)) db =
    if ltb max_diff_items (length (i ∷ is))
    then diff_error 413 too_many_items
    else diff_validated driver user_id now db (validate_diff_items [] [] [] (i ∷ is))
