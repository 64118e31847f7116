-- ===== src/Tests/Sound.antt =====
-- The invariant of the process over a push, whose unknown kid fetches a key, and a panel request.
use ulsync_server.Prelude.{◌≡◌, refl, true, none, some, List, [], ◌∷◌, codes}
use ulsync_server.Prelude.Int.{pos}
use ulsync_server.Live.Valid.{new-IsValid}
use ulsync_server.Auth.{Jwt, parsed, verify, key_func}
use ulsync_server.Auth.Jwks.{PublicKey, rsa}
use ulsync_server.Auth.Fetch.{read_failed, no_response, responded}
use ulsync_server.Metrics.{new_collector}
use ulsync_server.Admin.Snapshot.{zero_stats}
use ulsync_server.Command.Start.{settings, auth_settings}
use ulsync_server.System.{
  Process, System, Action, calls, asks_panel, bearer_of, status_of, served, verified, finished,
  show_frame, call, act, run,
}
use ulsync_server.System.Invariant.{IsValid, Loads, run-IsValid}
use ulsync_server.Tests.Data.{ann}
use ulsync_server.Tests.Tables.{no_rows-IsValid}
use ulsync_server.Tests.Documents.{filled}
use ulsync_server.Tests.Server.{pushing_note, idle}
use ulsync_server.Tests.Panel.{fetched, entries, request, no_keys}

program : Unit {0}
unfolding ulsync_server.Tests.Server.program ulsync_server.Tests.Panel.program verify key_func
    settings auth_settings bearer_of status_of served verified finished show_frame call act run
program = tt

-- A library that finds the kid "k" in a header and takes the token for one of ann.
abbrev trusting : Jwt PublicKey
trusting = record {
  peek_kid = λ token. codes "k";
  parse_with_claims = λ token key_of. parsed true ann;
}

abbrev world : Process PublicKey
world = record {
  config = record filled { auth = record filled.auth { jwks_url = codes "https://id" } };
  jwt = trusting;
  options = record { snapshot_every = 0; stats_every = 0 };
  version = codes "v1";
  started_at = 0;
}

abbrev started : System PublicKey
started = record {
  node = idle;
  verifier = no_keys;
  counters = new_collector;
  cache = record { stats_cached = zero_stats []; stats_at = none };
  frame = none;
}

abbrev actions : List (Action PublicKey)
actions = asks_panel fetched request ∷ calls fetched pushing_note 7 (pos 99) ∷ []

key_is_held : (run world actions started).verifier.keys ≡ (codes "k", rsa 255 65537) ∷ []
unfolding program
key_is_held = refl

run-IsValid_example : IsValid (run world actions started)
unfolding program
run-IsValid_example =
    let loads : Loads (auth_settings world.config) fetched = (
      read_failed,
      read_failed,
      no_response,
      responded 200 (some (60, some entries)),
      refl,
      refl,
    ) in
    run-IsValid world actions started (loads, (((λ q v. v), loads), tt))
      (record { shared = record { tables = no_rows-IsValid; waiters = new-IsValid }; keys = tt })
