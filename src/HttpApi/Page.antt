-- ===== src/HttpApi/Page.antt =====
-- internal/httpapi/pull.go: the query of a pull and a page of envelopes on the wire.
pub mod Query
pub mod Resend
use ulsync_server.Prelude.{
  all_digits, digits_value, ℕ, ◌+◌, ◌-◌, ◌*◌, ◌^◌, Bool, true, false, ◌&&◌, List, [], ◌∷◌, Str,
  codes, str_eq, ltb, leb, ◌==◌, Result, ok, err, ◌>>=◌, map, if◌then◌else◌,
}
use ulsync_server.Prelude.Int.{ℤ}
use ulsync_server.Store.Envelope.{Envelope}
use ulsync_server.Store.Db.{StoreError}
use ulsync_server.HttpApi.Push.{Response}

-- The results of `parseNonNegativeQueryInt`: `missing`, not `ok`, or a value.
pub data QueryInt : Type 0 where
  missing not_ok : QueryInt
  value : ℕ → QueryInt

-- `parseNonNegativeQueryInt`; `strconv.ParseUint(raw, 10, 63)` refuses what is not below 2^63.
unfoldable pub parse_non_negative_query_int : Str → QueryInt
unfolding all_digits digits_value
parse_non_negative_query_int raw =
    if str_eq raw []
    then missing
    else if all_digits raw
    then if ltb (digits_value 0 raw) (2 ^ 63) then value (digits_value 0 raw) else not_ok
    else not_ok

pub data Param : Type 0 where
  since limit live : Param

pub data LiveMode : Type 0 where
  immediate poll sse : LiveMode

-- The parameters of a pull after the guards of `pullHandler`.
pub record PullQuery : Type 0 where
  pub since : ℕ
  pub limit : ℕ
  pub mode : LiveMode

unfoldable pub parse_since : Str → Result Param ℕ
parse_since raw = elim (parse_non_negative_query_int raw) [
  | missing ↦ ok 0
  | not_ok ↦ err since
  | value n ↦ ok n
]

-- A limit of 0 is refused and one above the maximum is truncated.
unfoldable pub bound_limit : ℕ → ℕ → Result Param ℕ
bound_limit max_limit n =
    if n == 0 then err limit else if ltb max_limit n then ok max_limit else ok n

unfoldable pub parse_limit : ℕ → ℕ → Str → Result Param ℕ
unfolding bound_limit
parse_limit default_limit max_limit raw = elim (parse_non_negative_query_int raw) [
  | missing ↦ bound_limit max_limit default_limit
  | not_ok ↦ err limit
  | value n ↦ bound_limit max_limit n
]

unfoldable pub parse_live : Str → Result Param LiveMode
parse_live raw =
    if str_eq raw []
    then ok immediate
    else if str_eq raw (codes "poll")
    then ok poll
    else if str_eq raw (codes "sse")
    then ok sse
    else err live

-- The guards of `pullHandler` over the raw `since`, `limit` and `live`. The two limits of the
-- configuration are not negative, which its validation ensures.
unfoldable pub parse_query : ℕ → ℕ → Str → Str → Str → Result Param PullQuery
unfolding parse_since parse_limit parse_live
parse_query default_limit max_limit raw_since raw_limit raw_live = do
  s ← parse_since raw_since
  n ← parse_limit default_limit max_limit raw_limit
  mode ← parse_live raw_live
  ok (record { since = s; limit = n; mode = mode })

-- `pullEnvelope`
pub record PullEnvelope : Type 0 where
  pub id : Str
  pub part : Str
  pub entity_type : Str
  pub created_at_ms : ℤ
  pub last_edited_at_ms : ℤ
  pub revision : ℤ
  pub source_id : Str
  pub flags : ℤ
  pub schema_version : ℤ
  pub payload_encoding : Str
  pub payload : List ℕ
  pub server_seq : ℕ

-- `toPullEnvelope`
unfoldable pub to_pull_envelope : Envelope → PullEnvelope
to_pull_envelope env = record {
  id = env.id;
  part = env.part;
  entity_type = env.entity_type;
  created_at_ms = env.created_at_ms;
  last_edited_at_ms = env.last_edited_at_ms;
  revision = env.revision;
  source_id = env.source_id;
  flags = env.flags;
  schema_version = env.schema_version;
  payload_encoding = env.payload_encoding;
  payload = env.payload;
  server_seq = env.server_seq;
}

-- `pullResponse` and the bodies of the errors.
pub data PullBody : Type 0 where
  invalid_parameter : Param → PullBody
  storage_unavailable : PullBody
  pull_response : List PullEnvelope → ℕ → ℤ → PullBody

-- `writePullJSON`, at the time `now`.
unfoldable pub write_pull_json : ℤ → List Envelope → ℕ → Response PullBody
write_pull_json now rows cursor = record {
  status = 200;
  body = pull_response (map to_pull_envelope rows) cursor now;
}

-- The answer to the result of `Since`.
unfoldable pub answer_page : ℤ → Result StoreError (List Envelope × ℕ) → Response PullBody
unfolding write_pull_json
answer_page now (ok (rows, cursor)) = write_pull_json now rows cursor
answer_page now (err e) = record { status = 503; body = storage_unavailable }
