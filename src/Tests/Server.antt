-- ===== src/Tests/Server.antt =====
-- The properties of internal/httpapi/server.go and origin.go at sample requests.
use ulsync_server.Prelude.{
  trim_space, ◌≡◌, ◌≢◌, ◌≤◌, refl, ◌⊎◌, true, Option, none, some, [], ◌∷◌, Str, codes, str_eq,
  str_lt, length, if◌then◌else◌,
}
use ulsync_server.Prelude.Int.{pos}
use ulsync_server.Store.Conflict.{where_clause}
use ulsync_server.Store.Envelope.{key_eq}
use ulsync_server.Store.Db.{find_row, next_seq, bump_seq, replace_row, is_row, allocate_seq}
use ulsync_server.Store.Upsert.{upsert_many, upsert_envelope, upsert_one_in_tx, upsert_loop}
use ulsync_server.Store.Origin.{empty, ensure_origin, meta_value, put_meta, write_meta, origin}
use ulsync_server.Store.Origin.Contour.{origin_of}
use ulsync_server.Live.{new}
use ulsync_server.Live.Valid.{new-IsValid}
use ulsync_server.HttpApi.Base64.{decode}
use ulsync_server.HttpApi.Push.{
  decoded, malformed, push_handler, respond, prepare, wire_to_envelope, to_envelope,
  validate_wire_envelope, bad_name, dup_key,
}
use ulsync_server.HttpApi.Pull.{gone}
use ulsync_server.Config.Origin.{validate_origin, all_origin_chars, max_origin_len}
use ulsync_server.HttpApi.Origin.{imprints, require_origin}
use ulsync_server.HttpApi.Origin.Gate.{require_origin-passes}
use ulsync_server.HttpApi.Server.{
  Settings, Request, Node, unauthorized, require_bearer, root_route, to_v1, v1_route, sync_route,
  serve,
}
use ulsync_server.HttpApi.Server.Safety.{IsValid, serve_all, serve_all-IsValid}
use ulsync_server.HttpApi.Server.Users.{find_row-serve, serve-unauthorized}
use ulsync_server.Tests.Data.{ann, bob, note, key, no_rows, answering, wire}
use ulsync_server.Tests.Tables.{no_rows-IsValid}

unfoldable pub program : Unit {0}
unfolding str_eq str_lt key_eq where_clause is_row find_row replace_row next_seq bump_seq
    allocate_seq upsert_envelope upsert_one_in_tx upsert_loop upsert_many decode dup_key bad_name
    validate_wire_envelope to_envelope wire_to_envelope prepare push_handler respond meta_value
    put_meta write_meta origin ensure_origin trim_space validate_origin imprints require_origin
    all_origin_chars new require_bearer root_route v1_route sync_route serve serve_all
program = tt

abbrev pub settings : Settings
settings = record {
  origin = [];
  max_envelopes_per_push = pos 500;
  pull_limit_default = 500;
  pull_limit_max = 1000;
}

abbrev pub verify : Str → Option Str
verify token = if str_eq token (codes "ann-token") then some ann else none

abbrev pub pushing_note : Request
pushing_note = record {
  method = codes "POST";
  path = codes "/v1/sync/push";
  authorization = codes "bearer  ann-token ";
  ulsync_origin = [];
  since = [];
  limit = [];
  live = [];
  push = decoded (wire (codes "a") 10 ∷ []);
  diff = malformed;
  driver = answering;
  stats = none;
  now = pos 99;
  meets = record {
    snapshots = λ i. record { driver = answering; db = no_rows; now = pos 99 };
    wait = gone;
    events = [];
    writes = λ i. true;
    fuel = 9;
    others = λ r. r;
  };
}

abbrev hello : Request
hello = record pushing_note {
  method = codes "GET";
  path = codes "/v1/sync/hello";
  ulsync_origin = codes " shop/main ";
}

abbrev pub idle : Node
idle = record { db = no_rows; registry = new }

note_is_stored :
    find_row ann (key (codes "a")) (serve verify settings pushing_note idle).0.db.envelopes
    ≡ some (record (note (codes "a") 10) { server_seq = 1 })
unfolding program
note_is_stored = refl

serve_all-IsValid_example : IsValid (serve_all verify settings (hello ∷ pushing_note ∷ []) idle)
serve_all-IsValid_example =
    serve_all-IsValid verify settings (hello ∷ pushing_note ∷ []) idle
      ((λ q v. v), ((λ q v. v), tt)) (record { tables = no_rows-IsValid; waiters = new-IsValid })

find_row-serve_example :
    find_row bob (key (codes "a")) (serve verify settings pushing_note idle).0.db.envelopes
    ≡ find_row bob (key (codes "a")) no_rows.envelopes
unfolding program
find_row-serve_example =
    find_row-serve ann bob (key (codes "a")) refl settings pushing_note verify idle refl

abbrev pub unsigned : Request
unsigned = record pushing_note { authorization = codes "Bearer" }

serve-unauthorized_example :
    ((serve verify settings unsigned idle).0 ≡ idle)
    × ((root_route unsigned.method unsigned.path ≢ to_v1)
        ⊎ (serve verify settings unsigned idle ≡ (idle, unauthorized)))
unfolding program
serve-unauthorized_example = serve-unauthorized verify settings unsigned idle refl

require_origin-passes_example :
    let after =
      (require_origin answering [] hello.method hello.path hello.ulsync_origin no_rows).0 in
    (codes "shop/main" ≡ (if empty (trim_space []) then origin_of after else trim_space []))
    × (((trim_space [] ≡ []) × (trim_space hello.ulsync_origin ≡ []))
        ⊎ ((trim_space hello.ulsync_origin ≡ codes "shop/main")
            × (length (codes "shop/main") ≤ max_origin_len)
            × (all_origin_chars (codes "shop/main") ≡ true)))
    × (((hello.method ≡ codes "GET") × (hello.path ≡ codes "/v1/sync/hello")) ⊎ (after ≡ no_rows))
unfolding program
require_origin-passes_example =
    require_origin-passes answering [] hello.method hello.path hello.ulsync_origin no_rows refl
