-- ===== src/Store/Ranks.antt =====
-- internal/store/ranks.go: the stored conflict ranks of a batch of keys.
pub mod Answers
use ulsync_server.Prelude.{Option, none, some, List, [], ◌∷◌, Str, Result, ok, err, if◌then◌else◌}
use ulsync_server.Store.Conflict.{Ranks}
use ulsync_server.Store.Envelope.{Envelope, Key, ranks_of}
use ulsync_server.Store.Db.{Db, Driver, StoreError, failed, select, find_row}
use ulsync_server.Store.KeyMap.{put}

-- One `storedRanksSQL` and the branch on its answer: an absent key stays out of the map.
unfoldable pub note_ranks : Key → Option Envelope → List (Key × Ranks) → List (Key × Ranks)
note_ranks key none out = out
note_ranks key (some e) out = put key (ranks_of e) out

-- The loop over the keys.
unfoldable pub ranks_loop : Str → List Key → Db → List (Key × Ranks) → List (Key × Ranks)
unfolding note_ranks
ranks_loop user_id [] db out = out
ranks_loop user_id (key ∷ keys) db out =
    ranks_loop user_id keys db (note_ranks key (find_row user_id key db.envelopes) out)

-- `StoredRanks`
unfoldable pub stored_ranks : Driver → Str → List Key → Db → Result StoreError (List (Key × Ranks))
unfolding ranks_loop
stored_ranks driver user_id [] db = ok []
stored_ranks driver user_id (key ∷ keys) db =
    if driver.reads then ok (ranks_loop user_id (key ∷ keys) db []) else err (failed select)
