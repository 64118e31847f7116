-- ===== src/Tests/Pulls.antt =====
-- The properties of internal/httpapi/pull.go and sse.go at sample requests.
use ulsync_server.Prelude.{
  Bool, not, ◌==◌, ℕ, ◌≡◌, refl, true, [], ◌∷◌, codes, arith, str_eq, str_lt, ok,
}
use ulsync_server.Prelude.Int.{pos}
use ulsync_server.Store.Conflict.{where_clause}
use ulsync_server.Store.Envelope.{Envelope, key_eq}
use ulsync_server.Store.Db.{Db, find_row, next_seq, bump_seq, replace_row, is_row}
use ulsync_server.Store.Db.Valid.{IsValid}
use ulsync_server.Store.Upsert.{upsert_envelope}
use ulsync_server.Store.Upsert.Spec.{apply_one, apply_all}
use ulsync_server.Store.Upsert.Validity.{apply_one-IsValid}
use ulsync_server.Store.Since.{backlog, since_page}
use ulsync_server.Live.{new, subscribe}
use ulsync_server.HttpApi.Base64.{encode, decode}
use ulsync_server.HttpApi.Push.{wire_to_envelope, validate_wire_envelope, bad_name}
use ulsync_server.HttpApi.Page.{
  poll, parse_non_negative_query_int, parse_query, PullQuery, to_pull_envelope,
}
use ulsync_server.Prelude.Decimal.{decimal}
use ulsync_server.HttpApi.Page.Resend.{resent, wire_to_envelope-resent}
use ulsync_server.HttpApi.Sse.{
  Snapshot, gone, ticked, woken, stream_catch_up, serve_live_sse, envelopes_in,
}
use ulsync_server.HttpApi.Sse.Rising.{Between, serve_live_sse-Between}
use ulsync_server.HttpApi.Sse.Complete.{CaughtUp, stream_catch_up_complete}
use ulsync_server.HttpApi.Pull.{timed_out, serve_live_poll, Meets, pull_handler}
use ulsync_server.HttpApi.Pull.Answers.{live_answer, serve_live_poll-live_answer}
use ulsync_server.Tests.Data.{ann, note, no_rows, answering}
use ulsync_server.Tests.Tables.{no_rows-IsValid}

unfoldable pub program : Unit {0}
unfolding str_eq str_lt key_eq where_clause is_row find_row replace_row next_seq bump_seq
    upsert_envelope apply_one apply_all since_page parse_query parse_non_negative_query_int decimal
    encode decode resent to_pull_envelope validate_wire_envelope wire_to_envelope bad_name
    serve_live_sse stream_catch_up envelopes_in new subscribe serve_live_poll pull_handler
program = tt

decimal_digits : decimal 19 1207 ≡ codes "1207"
unfolding program
decimal_digits = refl

abbrev query : PullQuery
query = record { since = 7; limit = 1000; mode = poll }

abbrev stored : Envelope
stored = record (note (codes "a") 10) { server_seq = 3 }

wire_to_envelope-resent_example :
    wire_to_envelope (resent (to_pull_envelope stored)) ≡ ok (record stored { server_seq = 0 })
unfolding program
wire_to_envelope-resent_example = wire_to_envelope-resent stored (omega arith) refl

abbrev pub one_note : Db
one_note = (apply_one ann (note (codes "a") 10) no_rows).0

pub one_note-IsValid : IsValid one_note
one_note-IsValid =
    apply_one-IsValid ann (note (codes "a") 10) no_rows no_rows-IsValid
      (unfold program in omega arith)

abbrev pub two_notes : Db
two_notes = (apply_one ann (note (codes "b") 20) one_note).0

pub two_notes-IsValid : IsValid two_notes
two_notes-IsValid =
    apply_one-IsValid ann (note (codes "b") 20) one_note one_note-IsValid
      (unfold program in omega arith)

abbrev pub seeing : Db → Snapshot
seeing db = record { driver = answering; db = db; now = pos 99 }

serve_live_poll-live_answer_example :
    serve_live_poll (seeing two_notes) (timed_out (pos 100)) ann 2 1
    ≡ live_answer (seeing two_notes) (timed_out (pos 100)) ann 2 1 (backlog ann 2 two_notes)
serve_live_poll-live_answer_example =
    serve_live_poll-live_answer ann 2 1 (seeing two_notes) (timed_out (pos 100)) (omega arith) refl

abbrev meets : Meets
meets = record {
  snapshots = λ i. seeing two_notes;
  wait = timed_out (pos 100);
  events = [];
  writes = λ i. true;
  fuel = 9;
  others = λ r. r;
}

-- The second frame of the connection is not written.
abbrev fails_second : ℕ → Bool
fails_second n = not (n == 1)

serve_live_sse-Between_example :
    (hi : ℕ) × Between 0 hi (
      envelopes_in (
        serve_live_sse fails_second ann 1 9
          (λ i. seeing one_note)
          (ticked ∷ woken (λ i. seeing two_notes) ∷ gone ∷ [])
          0))
serve_live_sse-Between_example =
    serve_live_sse-Between fails_second ann 1 9 (λ i. seeing one_note)
      (ticked ∷ woken (λ i. seeing two_notes) ∷ gone ∷ []) 0 (λ j. one_note-IsValid)
      (tt, ((λ j. two_notes-IsValid), (tt, tt)))

stream_catch_up_complete_example :
    CaughtUp ann two_notes
      (pos 99)
      0
      (stream_catch_up (λ i. true) ann 1 9 (λ i. seeing two_notes) 0 0 0)
unfolding program
stream_catch_up_complete_example =
    stream_catch_up_complete (λ i. true) (λ i. refl) ann 1 (seeing two_notes) two_notes-IsValid refl
      9 0 0 0 (omega arith) (omega arith)
