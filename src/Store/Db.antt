-- ===== src/Store/Db.antt =====
-- internal/store/store.go and internal/store/migrations: the tables of the database, the answers of
-- the SQLite driver during one call, and the allocation of sequence numbers.
pub mod Rows
pub mod Valid
use ulsync_server.Prelude.{
  ℕ, ◌+◌, ◌-◌, ◌^◌, Bool, ◌&&◌, Option, none, some, List, [], ◌∷◌, Str, str_eq, ltb, Result, ok,
  err, if◌then◌else◌,
}
use ulsync_server.Store.Envelope.{Envelope, Key, key_eq, key_of}

-- The columns of the table `envelopes`.
pub record Row : Type 0 where
  pub user_id : Str
  pub env : Envelope

-- The tables `users` (user_id, next_seq), `envelopes` and `server_meta` (k, v).
pub record Db : Type 0 where
  pub users : List (Str × ℕ)
  pub envelopes : List Row
  pub meta : List (Str × Str)

pub data Stage : Type 0 where
  begin allocate upsert commit select read_meta write_meta : Stage

pub data StoreError : Type 0 where
  failed : Stage → StoreError
  empty_slice origin_required : StoreError
  origin_mismatch : Str → Str → StoreError
  authored_mismatch : Str → Str → StoreError

-- Which statements of one call the driver carries out. `allocates` and `upserts` are asked for the
-- i-th envelope of the transaction.
pub record Driver : Type 0 where
  pub begins : Bool
  pub allocates : ℕ → Bool
  pub upserts : ℕ → Bool
  pub commits : Bool
  pub reads : Bool
  pub writes : Bool

-- The largest INTEGER of SQLite and the largest int64.
abbrev pub max_int64 : ℕ
max_int64 = 2 ^ 63 - 1

-- The row's primary key is (user, id, part).
unfoldable pub is_row : Str → Key → Row → Bool
is_row user_id key r = str_eq r.user_id user_id && key_eq (key_of r.env) key

unfoldable pub find_row : Str → Key → List Row → Option Envelope
find_row user_id key [] = none
find_row user_id key (r ∷ rows) =
    if is_row user_id key r then some r.env else find_row user_id key rows

unfoldable pub replace_row : Str → Key → Envelope → List Row → List Row
replace_row user_id key env [] = []
replace_row user_id key env (r ∷ rows) =
    if is_row user_id key r
    then record r { env = env } ∷ rows
    else r ∷ replace_row user_id key env rows

-- `next_seq` of a user, 0 where `users` has no row.
unfoldable pub next_seq : Str → List (Str × ℕ) → ℕ
next_seq user_id [] = 0
next_seq user_id ((u, n) ∷ users) = if str_eq u user_id then n else next_seq user_id users

-- INSERT … VALUES (?, 1) ON CONFLICT (user_id) DO UPDATE SET next_seq = next_seq + 1
unfoldable pub bump_seq : Str → List (Str × ℕ) → List (Str × ℕ)
bump_seq user_id [] = (user_id, 1) ∷ []
bump_seq user_id ((u, n) ∷ users) =
    if str_eq u user_id then (u, n + 1) ∷ users else (u, n) ∷ bump_seq user_id users

-- `AllocateSeq`, and the same statement in a transaction. A counter at the largest INTEGER cannot
-- be incremented: SQLite's sum is then a real number, which a STRICT table refuses.
unfoldable pub allocate_seq : Bool → Str → Db → Result StoreError (Db × ℕ)
allocate_seq answers user_id db =
    if answers && ltb (next_seq user_id db.users) max_int64
    then ok (record db { users = bump_seq user_id db.users }, next_seq user_id db.users + 1)
    else err (failed allocate)
