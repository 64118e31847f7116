-- ===== src/Tests/Replicas.antt =====
-- A client that pulls between two pushes.
use ulsync_server.Prelude.{◌≡◌, refl, some, List, [], ◌∷◌, codes, arith}
use ulsync_server.Prelude.Int.{pos}
use ulsync_server.HttpApi.Push.{decoded}
use ulsync_server.HttpApi.Page.{to_pull_envelope}
use ulsync_server.HttpApi.Server.{Request}
use ulsync_server.Replica.{
  new_client, put, keep_rows, take_body, take_served, pull, Happening, requests, pulls, happens,
  happen, pull_often,
}
use ulsync_server.Replica.Synced.{behind, pull_often-synced}
use ulsync_server.Tests.Data.{ann, note, key, answering, wire}
use ulsync_server.Tests.Tables.{no_rows-IsValid}
use ulsync_server.Tests.Server.{settings, verify, pushing_note, idle}

program : Unit {0}
unfolding ulsync_server.Tests.Server.program ulsync_server.Tests.Pulls.program put keep_rows
    take_body take_served pull happens happen pull_often
program = tt

-- A newer version of the note.
abbrev pushing_again : Request
pushing_again = record pushing_note { push = decoded (wire (codes "a") 20 ∷ []) }

abbrev events : List Happening
events = requests pushing_note ∷ pulls answering (pos 100) (codes "1") ∷ requests pushing_again ∷ []

old_note_is_held :
    (happen verify settings ann events (idle, new_client)).1.copy (key (codes "a"))
    ≡ some (to_pull_envelope (record (note (codes "a") 10) { server_seq = 1 }))
unfolding program
old_note_is_held = refl

one_behind : behind ann (happen verify settings ann events (idle, new_client)) ≡ 1
unfolding program
one_behind = refl

pull_often-synced_example :
    (pull_often verify settings ann answering
        (pos 101)
        1
        (happen verify settings ann events (idle, new_client))).1.copy
      (key (codes "a"))
    ≡ some (to_pull_envelope (record (note (codes "a") 20) { server_seq = 2 }))
unfolding program
pull_often-synced_example =
    pull_often-synced verify settings ann answering (pos 101) refl (omega arith) (omega arith)
      events idle 1 (key (codes "a")) no_rows-IsValid (omega (arith, one_behind))
