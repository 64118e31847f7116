-- ===== src/Store/Db/Rows.antt =====
-- The tables of internal/store/migrations: what is read after a write.
use ulsync_server.Prelude.{
  ℕ, ◌+◌, ◌≡◌, Bool, ◌&&◌, none, some, List, [], ◌∷◌, ◌++◌, Str, str_eq, str_eq_iff, arith,
  if◌then◌else◌,
}
use ulsync_server.Store.Envelope.{Envelope, Key, key_eq, key_eq_iff, key_of}
use ulsync_server.Store.Db.{Row, is_row, find_row, replace_row, next_seq, bump_seq}

pub next_seq-bump_seq :
    (u v : Str) (users : List (Str × ℕ))
    → next_seq v (bump_seq u users)
      ≡ (if str_eq u v then next_seq v users + 1 else next_seq v users)
unfolding next_seq bump_seq
next_seq-bump_seq u v [] = ground arith
next_seq-bump_seq u v ((w, n) ∷ users) =
    ground (arith, next_seq-bump_seq u v users, str_eq_iff w u, str_eq_iff w v, str_eq_iff u v)

-- The same primary key.
unfoldable pub same_key : Str → Key → Str → Key → Bool
same_key u k v j = str_eq u v && key_eq k j

pub find_row-key :
    (u : Str) (k : Key) (rows : List Row) {e : Envelope} → find_row u k rows ≡ some e → key_of e ≡ k
unfolding find_row is_row
find_row-key u k [] h = ground arith
find_row-key u k (r ∷ rows) h = grind (arith, find_row-key u k rows, key_eq_iff (key_of r.env) k)

pub find_row-append :
    (u v : Str) (k : Key) (env : Envelope) (rows : List Row)
    → key_of env ≡ k
    → find_row u k rows ≡ none
    → (j : Key)
    → find_row v j (rows ++ record { user_id = u; env = env } ∷ [])
      ≡ (if same_key u k v j then some env else find_row v j rows)
unfolding find_row is_row same_key
find_row-append u v k env [] e h j = ground arith
find_row-append u v k env (r ∷ rows) e h j = ground (
  arith,
  find_row-append u v k env rows e,
  find_row-append u v k env rows e (ground arith) j,
  key_eq_iff (key_of r.env) k,
  key_eq_iff (key_of r.env) j,
  key_eq_iff k j,
  str_eq_iff r.user_id u,
  str_eq_iff r.user_id v,
  str_eq_iff u v,
)

pub find_row-replace_row :
    (u v : Str) (k j : Key) (env old : Envelope) (rows : List Row)
    → key_of env ≡ k
    → find_row u k rows ≡ some old
    → find_row v j (replace_row u k env rows)
      ≡ (if same_key u k v j then some env else find_row v j rows)
unfolding find_row is_row same_key replace_row
find_row-replace_row u v k j env old [] e h = ground arith
find_row-replace_row u v k j env old (r ∷ rows) e h = ground (
  arith,
  find_row-replace_row u v k j env old rows e,
  key_eq_iff (key_of r.env) k,
  key_eq_iff (key_of r.env) j,
  key_eq_iff k j,
  str_eq_iff r.user_id u,
  str_eq_iff r.user_id v,
  str_eq_iff u v,
)
