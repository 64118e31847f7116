-- ===== src/Store/Upsert/Spec.antt =====
-- What internal/store/upsert.go promises: a register for each key, in which the better ranks stay.
use ulsync_server.Prelude.{
  ℕ, ◌+◌, Bool, true, Option, none, some, List, [], ◌∷◌, Str, if◌then◌else◌,
}
use ulsync_server.Store.Conflict.{Ranks, wins}
use ulsync_server.Store.Envelope.{Envelope, Key, key_eq, key_of, ranks_of}
use ulsync_server.Store.Db.{Db, next_seq, bump_seq}
use ulsync_server.Store.Upsert.{upsert_envelope}

-- One write that meets no failure.
unfoldable pub apply_one : Str → Envelope → Db → Db × Bool
apply_one user_id e db =
    let written = upsert_envelope user_id (next_seq user_id db.users + 1) e db.envelopes in
    (record db { users = bump_seq user_id db.users; envelopes = written.0 }, written.1)

unfoldable pub apply_all : Str → List Envelope → Db → Db × List Bool
apply_all user_id [] db = (db, [])
apply_all user_id (e ∷ es) db =
    let (db', one) = apply_one user_id e db in
    let (db'', rest) = apply_all user_id es db' in (db'', one ∷ rest)

-- Does an envelope enter the register of its key?
unfoldable pub accepts : Option Envelope → Envelope → Bool
accepts none e = true
accepts (some old) e = wins (ranks_of e) (ranks_of old)

-- The register after an envelope that came with the sequence number: the envelope with that number,
-- which keeps the creation time of the one that it replaces.
unfoldable pub settle : Option Envelope → ℕ → Envelope → Option Envelope
settle none seq e = some (record e { server_seq = seq })
settle (some old) seq e =
    if wins (ranks_of e) (ranks_of old)
    then some (record e { created_at_ms = old.created_at_ms; server_seq = seq })
    else some old

-- The ranks alone, over the envelopes that arrive for one key.
unfoldable pub keep : Option Ranks → Ranks → Option Ranks
keep none r = some r
keep (some s) r = if wins r s then some r else some s

-- The same at one key: an envelope of another key leaves it alone.
unfoldable pub keep_at : Key → Option Ranks → Envelope → Option Ranks
keep_at key o e = if key_eq (key_of e) key then keep o (ranks_of e) else o

unfoldable pub keep_all : Key → Option Ranks → List Envelope → Option Ranks
keep_all key o [] = o
keep_all key o (e ∷ es) = keep_all key (keep_at key o e) es
