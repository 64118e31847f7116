-- ===== src/Tests/Streams.antt =====
-- A client of a stream that breaks in the middle of a page.
use ulsync_server.Prelude.{ℕ, ◌≡◌, refl, Bool, not, ◌==◌, some, List, [], ◌∷◌, codes}
use ulsync_server.Store.Upsert.Grows.{Grows-same, apply_one-Grows}
use ulsync_server.HttpApi.Page.{to_pull_envelope}
use ulsync_server.HttpApi.Sse.{Event, ticked, woken, gone, wait_loop, serve_live_sse}
use ulsync_server.Replica.{Client, new_client, put, keep_rows}
use ulsync_server.Replica.Synced.{new_client-Tracks}
use ulsync_server.Replica.Stream.{take_frames}
use ulsync_server.Replica.Stream.Follows.{Follows, serve_live_sse-Follows}
use ulsync_server.Tests.Data.{ann, note, key, no_rows}
use ulsync_server.Tests.Tables.{no_rows-IsValid}
use ulsync_server.Tests.Pulls.{one_note, two_notes, seeing, one_note-IsValid, two_notes-IsValid}

program : Unit {0}
unfolding ulsync_server.Tests.Pulls.program wait_loop put keep_rows take_frames
program = tt

-- The sixth frame, the cursor after the second note, is not written.
abbrev breaks : ℕ → Bool
breaks n = not (n == 5)

abbrev events : List Event
events = ticked ∷ woken (λ i. seeing two_notes) ∷ gone ∷ []

abbrev after : Client
after = take_frames (serve_live_sse breaks ann 1 9 (λ i. seeing one_note) events 0) new_client

second_is_held :
    (after.cursor ≡ 1)
    × (after.copy (key (codes "b"))
        ≡ some (to_pull_envelope (record (note (codes "b") 20) { server_seq = 2 })))
unfolding program
second_is_held = (refl, refl)

serve_live_sse-Follows_example : Follows ann no_rows (woken (λ i. seeing one_note) ∷ events) after
serve_live_sse-Follows_example =
    serve_live_sse-Follows ann breaks 1 9 (λ i. seeing one_note) events no_rows new_client
      (record {
        first = apply_one-Grows ann ann (note (codes "a") 10) no_rows;
        then_on = λ j. Grows-same ann one_note one_note refl refl;
        valid = λ j. one_note-IsValid;
      })
      (λ j. (
        record {
          first = apply_one-Grows ann ann (note (codes "b") 20) one_note;
          then_on = λ j. Grows-same ann two_notes two_notes refl refl;
          valid = λ j. two_notes-IsValid;
        },
        λ j. tt,
      ))
      (new_client-Tracks ann no_rows no_rows-IsValid)
