-- ===== src/Tests/Tables.antt =====
-- The properties of internal/store/upsert.go, since.go and ranks.go at sample tables.
use mathlib.Core.List.Perm
use ulsync_server.Prelude.{
  ◌+◌, ◌<◌, ◌≡◌, ◌↔◌, ◌⊎◌, refl, true, false, some, List, [], ◌∷◌, Str, codes, str_eq, str_lt,
  arith, ok, err, In, if◌then◌else◌,
}
use ulsync_server.Store.Conflict.{wins, where_clause}
use ulsync_server.Store.Conflict.Order.{wins-where_clause}
use ulsync_server.Store.Envelope.{Envelope, key_eq, ranks_of}
use ulsync_server.Store.Db.{
  Db, StoreError, find_row, next_seq, bump_seq, replace_row, is_row, allocate_seq,
}
use ulsync_server.Store.Db.Rows.{same_key}
use ulsync_server.Store.Db.Valid.{IsValid}
use ulsync_server.Store.KeyMap.{lookup, put}
use ulsync_server.Store.Ranks.{stored_ranks, ranks_loop}
use ulsync_server.Store.Upsert.{upsert_many, upsert_envelope, upsert_one_in_tx, upsert_loop}
use ulsync_server.Store.Upsert.Spec.{apply_one, apply_all, settle}
use ulsync_server.Store.Upsert.Lww.{find_row-apply_one}
use ulsync_server.Store.Upsert.Convergence.{stored_at, apply_all-converges}
use ulsync_server.Store.Upsert.Outcome.{Answers, upsert_many-atomic}
use ulsync_server.Store.Upsert.Validity.{apply_one-IsValid}
use ulsync_server.Store.Since.{backlog, next_cursor, since_page}
use ulsync_server.Store.Since.Members.{backlog-find_row}
use ulsync_server.Tests.Data.{ann, note, key, no_rows, answering}

program : Unit {0}
unfolding str_eq str_lt key_eq wins where_clause is_row find_row replace_row next_seq bump_seq
    allocate_seq upsert_envelope upsert_one_in_tx upsert_loop upsert_many apply_one apply_all
    backlog next_cursor since_page ranks_loop stored_ranks lookup put
program = tt

abbrev a : Str
a = codes "a"

abbrev b : Str
b = codes "b"

abbrev batch : List Envelope
batch = note a 10 ∷ note b 20 ∷ note a 9 ∷ []

abbrev stored : Db
stored = (apply_all ann batch no_rows).0

-- The third envelope loses against the first, and its number is lost.
run_batch : (upsert_many answering ann batch no_rows).1 ≡ ok (true ∷ true ∷ false ∷ [])
unfolding program
run_batch = refl

run_since : since_page answering ann 1 5 stored ≡ ok (record (note b 20) { server_seq = 2 } ∷ [], 2)
unfolding program
run_since = refl

pub no_rows-IsValid : IsValid no_rows
unfolding next_seq
no_rows-IsValid = record { apart = tt; numbered = tt; counted = λ u. omega arith }

abbrev one_row : Db
one_row = (apply_one ann (note a 10) no_rows).0

one_row-IsValid : IsValid one_row
unfolding next_seq
one_row-IsValid = apply_one-IsValid ann (note a 10) no_rows no_rows-IsValid (omega arith)

pub answering-Answers : Answers answering
answering-Answers = record {
  begins = refl;
  allocates = λ i. refl;
  upserts = λ i. refl;
  commits = refl;
}

wins-where_clause_example :
    wins (ranks_of (note a 10)) (ranks_of (note a 9))
    ≡ where_clause (ranks_of (note a 10)) (ranks_of (note a 9))
wins-where_clause_example = wins-where_clause (ranks_of (note a 10)) (ranks_of (note a 9))

upsert_many-atomic_example :
    (upsert_many answering ann batch no_rows
      ≡ ((apply_all ann batch no_rows).0, ok (apply_all ann batch no_rows).1))
    ⊎ ((x : StoreError) × (upsert_many answering ann batch no_rows ≡ (no_rows, err x)))
upsert_many-atomic_example = upsert_many-atomic answering ann batch no_rows

find_row-apply_one_example :
    find_row ann (key b) (apply_one ann (note a 10) no_rows).0.envelopes ≡ (
      if same_key ann (key a) ann (key b)
      then settle
          (find_row ann (key a) no_rows.envelopes)
          (next_seq ann no_rows.users + 1)
          (note a 10)
      else find_row ann (key b) no_rows.envelopes)
find_row-apply_one_example = find_row-apply_one ann (note a 10) no_rows ann (key b)

apply_all-converges_example :
    stored_at ann (key a) (apply_all ann (note a 10 ∷ note a 9 ∷ []) no_rows).0
    ≡ stored_at ann (key a) (apply_all ann (note a 9 ∷ note a 10 ∷ []) no_rows).0
apply_all-converges_example =
    apply_all-converges ann (key a) (note a 10 ∷ note a 9 ∷ []) (note a 9 ∷ note a 10 ∷ []) no_rows
      (Perm.swap (note a 9) (note a 10) [])

row_is_selected : In (record (note a 10) { server_seq = 1 }) (backlog ann 0 one_row) ↔ (
    (find_row ann (key a) one_row.envelopes ≡ some (record (note a 10) { server_seq = 1 }))
    × (0 < 1))
row_is_selected =
    backlog-find_row ann 0 one_row (record (note a 10) { server_seq = 1 }) one_row-IsValid
