-- ===== src/Tests/Handlers.antt =====
-- The properties of internal/httpapi/push.go and diff.go at sample requests.
use ulsync_server.Prelude.{
  ℕ, ◌≡◌, ◌≢◌, ◌↔◌, refl, true, inl, none, some, List, [], ◌∷◌, ◌++◌, Str, codes, str_eq, str_lt,
  arith, ok,
}
use ulsync_server.Prelude.Int.{pos}
use ulsync_server.Store.Conflict.{wins, where_clause}
use ulsync_server.Store.Envelope.{key_eq, ranks_of}
use ulsync_server.Store.Db.{Db, find_row, next_seq, bump_seq, replace_row, is_row, allocate_seq}
use ulsync_server.Store.KeyMap.{lookup, put}
use ulsync_server.Store.Ranks.{stored_ranks, ranks_loop}
use ulsync_server.Store.Upsert.{upsert_many, upsert_envelope, upsert_one_in_tx, upsert_loop}
use ulsync_server.Store.Upsert.Spec.{apply_one, apply_all}
use ulsync_server.HttpApi.Base64.{encode, decode}
use ulsync_server.HttpApi.Push.{
  decoded, refused, Field, invalid_envelope, push_response, duplicate_envelope_key, dup_key,
  bad_name, validate_wire_envelope, to_envelope, wire_to_envelope, prepare, push_handler,
}
use ulsync_server.HttpApi.Push.Fields.{WellFormed, Copied, wire_to_envelope_iff}
use ulsync_server.HttpApi.Push.Outcome.{
  Outcome, accepted, push_handler-Outcome, push_handler-accepted,
}
use ulsync_server.HttpApi.Push.Duplicates.{nul_collision}
use ulsync_server.HttpApi.Diff.{
  DiffItem, StaleEntry, validate_diff_item, validate_diff_items, incoming_at, compare_keys,
  diff_handler,
}
use ulsync_server.HttpApi.Diff.Items.{first_item}
use ulsync_server.HttpApi.Diff.Report.{reports, replied, diff_predicts_push}
use ulsync_server.HttpApi.Diff.Unpushable.{named_but_refused}
use ulsync_server.Tests.Data.{ann, note, key, no_rows, answering, wire, item}
use ulsync_server.Tests.Tables.{answering-Answers}

program : Unit {0}
unfolding str_eq str_lt key_eq wins where_clause is_row find_row replace_row next_seq bump_seq
    allocate_seq upsert_envelope upsert_one_in_tx upsert_loop upsert_many apply_one apply_all
    ranks_loop stored_ranks lookup put encode decode dup_key bad_name validate_wire_envelope
    to_envelope wire_to_envelope prepare push_handler validate_diff_item validate_diff_items
    incoming_at compare_keys diff_handler first_item
program = tt

abbrev a : Str
a = codes "a"

abbrev b : Str
b = codes "b"

decode_padding : decode (codes "e30=") ≡ some (123 ∷ 125 ∷ [])
unfolding program
decode_padding = refl

decode_unpadded : decode (codes "e30") ≡ none
unfolding program
decode_unpadded = refl

wire_to_envelope_iff_example : (wire_to_envelope (wire a 10) ≡ ok (note a 10)) ↔ (
    WellFormed (wire a 10)
    × ((bytes : List ℕ) × (decode (codes "e30=") ≡ some bytes)
        × Copied (wire a 10) bytes (note a 10)))
wire_to_envelope_iff_example = wire_to_envelope_iff (wire a 10) (note a 10)

push_handler-Outcome_example :
    Outcome ann
      (pos 99)
      (decoded (wire a 10 ∷ wire b 20 ∷ []))
      no_rows
      (push_handler answering (pos 500) ann (pos 99) (decoded (wire a 10 ∷ wire b 20 ∷ [])) no_rows)
push_handler-Outcome_example =
    push_handler-Outcome answering (pos 500) ann (pos 99) (decoded (wire a 10 ∷ wire b 20 ∷ []))
      no_rows

push_handler-accepted_example :
    push_handler answering (pos 500) ann (pos 99) (decoded (wire a 10 ∷ wire b 20 ∷ [])) no_rows
    ≡ accepted ann (pos 99) (note a 10 ∷ note b 20 ∷ []) no_rows
unfolding program
push_handler-accepted_example =
    push_handler-accepted answering (pos 500) ann (pos 99) (wire a 10) (wire b 20 ∷ []) (note a 10)
      (note b 20 ∷ []) no_rows answering-Answers (omega arith) (refl, (refl, tt)) (refl, (refl, tt))
      (omega arith)

nul_collision_example :
    let first = record (wire a 10) { id = a; part = b ++ 0 ∷ a } in
    let second = record (wire a 10) { id = a ++ 0 ∷ b; part = a } in
    (first.id ≢ second.id)
    × (push_handler answering (pos 500) ann (pos 99) (decoded (first ∷ second ∷ [])) no_rows
        ≡ refused no_rows 400 duplicate_envelope_key)
unfolding program
nul_collision_example =
    nul_collision answering (pos 500) ann (pos 99) (wire a 10) a b a
      (record (note a 10) { part = b ++ 0 ∷ a }) no_rows (omega arith) refl

abbrev items : List DiffItem
items = item a 10 ∷ item b 10 ∷ item a 99 ∷ []

abbrev held : Db
held = (apply_all ann (note a 10 ∷ note b 5 ∷ []) no_rows).0

abbrev b_row : StaleEntry
b_row = record { key = key b; ranks = ranks_of (note b 5) }

run_diff :
    diff_handler answering ann (pos 99) (decoded items) held ≡ replied [] (b_row ∷ []) (pos 99)
unfolding program
run_diff = refl

diff_predicts_push_example :
    let pushed = push_handler answering (pos 500) ann (pos 100) (decoded (wire b 10 ∷ [])) held in
    let named = reports (key b) ([], b_row ∷ []) in
    (pushed.notified ≡ named)
    × (pushed.response ≡ record {
      status = 200;
      body = push_response (record { id = b; part = codes "full"; applied = named } ∷ []) (pos 100);
    })
unfolding program
diff_predicts_push_example =
    diff_predicts_push answering ann (pos 99) items held [] (b_row ∷ []) run_diff answering
      (pos 500) (pos 100) (item b 10) (wire b 10) (note b 10) refl refl refl answering-Answers
      (omega arith) (omega arith)

b_is_named : reports (key b) ([], b_row ∷ []) ≡ true
unfolding program reports
b_is_named = refl

-- An item that was never edited.
abbrev never_edited : List DiffItem
never_edited = item a 0 ∷ []

run_never_edited :
    diff_handler answering ann (pos 99) (decoded never_edited) no_rows
    ≡ replied (key a ∷ []) [] (pos 99)
unfolding program
run_never_edited = refl

named_but_refused_example :
    (reports (key a) (key a ∷ [], []) ≡ true)
    × ((field : Field) × (push_handler answering
            (pos 500)
            ann
            (pos 100)
            (decoded (wire a 0 ∷ []))
            no_rows
          ≡ refused no_rows 400 (invalid_envelope field)))
unfolding program
named_but_refused_example =
    named_but_refused answering answering ann (pos 99) (pos 500) (pos 100) never_edited no_rows
      (key a ∷ []) [] (key a) (item a 0) (wire a 0) run_never_edited refl refl (inl (omega arith))
      refl refl (omega arith)
