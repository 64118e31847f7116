-- ===== src/Store/Since.antt =====
-- internal/store/since.go: one page of a user's rows after a cursor.
pub mod Order
pub mod Members
pub mod Pages
use ulsync_server.Prelude.{
  ℕ, Bool, ◌&&◌, List, [], ◌∷◌, Str, str_eq, ltb, leb, take, Result, ok, err, if◌then◌else◌,
}
use ulsync_server.Store.Envelope.{Envelope}
use ulsync_server.Store.Db.{Row, Db, Driver, StoreError, failed, select}

-- WHERE user_id = ? AND server_seq > ?
unfoldable pub rows_after : Str → ℕ → List Row → List Envelope
rows_after user_id since [] = []
rows_after user_id since (r ∷ rows) =
    if str_eq r.user_id user_id && ltb since r.env.server_seq
    then r.env ∷ rows_after user_id since rows
    else rows_after user_id since rows

-- ORDER BY server_seq
unfoldable pub insert_by_seq : Envelope → List Envelope → List Envelope
insert_by_seq e [] = e ∷ []
insert_by_seq e (x ∷ xs) =
    if leb e.server_seq x.server_seq then e ∷ x ∷ xs else x ∷ insert_by_seq e xs

unfoldable pub order_by_seq : List Envelope → List Envelope
unfolding insert_by_seq
order_by_seq [] = []
order_by_seq (e ∷ es) = insert_by_seq e (order_by_seq es)

-- All that `sinceSQL` selects without its LIMIT.
unfoldable pub backlog : Str → ℕ → Db → List Envelope
unfolding rows_after order_by_seq
backlog user_id since db = order_by_seq (rows_after user_id since db.envelopes)

-- The number of the last row, or the cursor itself if there is none.
unfoldable pub next_cursor : ℕ → List Envelope → ℕ
next_cursor since [] = since
next_cursor since (e ∷ es) = next_cursor e.server_seq es

-- `Since`
unfoldable pub since_page : Driver → Str → ℕ → ℕ → Db → Result StoreError (List Envelope × ℕ)
unfolding backlog next_cursor
since_page driver user_id since limit db =
    let out = take limit (backlog user_id since db) in
    if driver.reads then ok (out, next_cursor since out) else err (failed select)
