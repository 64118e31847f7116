-- ===== src/Tests/Process.antt =====
-- The whole process at two requests.
use ulsync_server.Prelude.{ℕ, ◌≡◌, ◌≢◌, refl, true, none, List, [], ◌∷◌, codes, arith}
use ulsync_server.Prelude.Int.{pos}
use ulsync_server.Store.Db.{find_row}
use ulsync_server.Auth.{
  Jwt, Circumstances, parsed, find_key, key_func, has_key, reload, refresh_if_stale,
  refetch_unknown_kid, prepare_keys, diagnose, verify, is_stale, may_refetch,
}
use ulsync_server.Metrics.{new_collector}
use ulsync_server.Admin.Snapshot.{zero_stats}
use ulsync_server.Command.Start.{settings, auth_settings}
use ulsync_server.System.{
  Process, System, Action, calls, bearer_of, status_of, served, verified, finished, show_frame,
  call, act, run,
}
use ulsync_server.System.Authorised.{Asked, find_row-act}
use ulsync_server.Tests.Data.{ann, key}
use ulsync_server.Tests.Documents.{filled}
use ulsync_server.Tests.Server.{pushing_note, idle, unsigned}

program : Unit {0}
unfolding ulsync_server.Tests.Server.program find_key key_func has_key reload refresh_if_stale
    refetch_unknown_kid prepare_keys diagnose verify is_stale may_refetch settings auth_settings
    bearer_of status_of served verified finished show_frame call act run
program = tt

-- A library that takes every token for one of ann.
abbrev trusting : Jwt ℕ
trusting = record { peek_kid = λ token. []; parse_with_claims = λ token key_of. parsed true ann }

abbrev quiet : Circumstances ℕ
quiet = record {
  stale_checked_at = 1;
  refreshed = none;
  refreshed_at = 1;
  unknown_checked_at = 1;
  refetched = none;
  refetched_at = 1;
}

abbrev world : Process ℕ
world = record {
  config = filled;
  jwt = trusting;
  options = record { snapshot_every = 0; stats_every = 0 };
  version = codes "v1";
  started_at = 0;
}

abbrev started : System ℕ
started = record {
  node = idle;
  verifier = record { keys = []; loaded_at = none; last_unknown_kid_fetch = none };
  counters = new_collector;
  cache = record { stats_cached = zero_stats []; stats_at = none };
  frame = none;
}

abbrev push : Action ℕ
push = calls quiet pushing_note 7 (pos 99)

row_appears :
    find_row ann (key (codes "a")) (act world push started).node.db.envelopes
    ≢ find_row ann (key (codes "a")) started.node.db.envelopes
unfolding program
row_appears = λ same. ground (arith, same)

find_row-act_example : Asked world started ann (key (codes "a")) push
find_row-act_example = find_row-act world started ann (key (codes "a")) push row_appears

-- A refused request, and the push.
abbrev actions : List (Action ℕ)
actions = calls quiet unsigned 3 (pos 100) ∷ push ∷ []

one_refused :
    let counters = (run world actions started).counters in
    (counters.total ≡ 2) × (counters.status_4xx ≡ 1) × (counters.in_flight ≡ 0)
unfolding program new_collector
one_refused = (refl, refl, refl)
