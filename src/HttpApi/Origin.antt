-- ===== src/HttpApi/Origin.antt =====
-- internal/httpapi/origin.go: the gate before the sync routes. The panic of `storeOrigin` has no counterpart, as the gate hands its origin on.
pub mod Gate
use mathlib.Core.List.{reverse}
use ulsync_server.Prelude.{
  trim_space, ℕ, zero, suc, ◌+◌, Bool, true, false, not, ◌&&◌, ◌||◌, List, [], ◌∷◌, ◌++◌, Str,
  codes, str_eq, ltb, leb, ◌==◌, Result, ok, err, length, drop, if◌then◌else◌,
}
use ulsync_server.Prelude.Int.{ℤ}
use ulsync_server.Store.Db.{
  Db, Driver, StoreError, failed, empty_slice, origin_required, origin_mismatch, authored_mismatch,
}
use ulsync_server.Store.Origin.{ensure_origin}
use ulsync_server.Config.Origin.{validate_origin}
use ulsync_server.HttpApi.Push.{Response}

-- The responses of the gate: `originInvalidBody`, `originRequiredBody`, `formatMismatchBody` with its
-- two origins, and the plain error.
pub data OriginBody : Type 0 where
  origin_invalid origin_missing origin_check_failed : OriginBody
  mismatch : Str → Str → OriginBody

-- `writeOriginError`, with `originMismatch`, which takes a mismatch of a request alone.
unfoldable pub write_origin_error : StoreError → Response OriginBody
write_origin_error origin_required = record { status = 400; body = origin_missing }
write_origin_error (origin_mismatch stored request) = record {
  status = 409;
  body = mismatch stored request;
}
write_origin_error (authored_mismatch authored stored) = record {
  status = 500;
  body = origin_check_failed;
}
write_origin_error (failed stage) = record { status = 500; body = origin_check_failed }
write_origin_error empty_slice = record { status = 500; body = origin_check_failed }

-- The request is imprinting exactly if it is a GET of the handshake.
unfoldable pub imprints : Str → Str → Bool
imprints method path = str_eq method (codes "GET") && str_eq path (codes "/v1/sync/hello")

-- The answer of `EnsureOrigin`.
unfoldable pub gate_answer : Db × Result StoreError Str → Db × Result (Response OriginBody) Str
unfolding write_origin_error
gate_answer (db, err e) = (db, err (write_origin_error e))
gate_answer (db, ok origin) = (db, ok origin)

-- `requireOrigin`: the tables after it, and its response or the origin for the handler.
unfoldable pub require_origin :
    Driver → Str → (method path header : Str) → Db → Db × Result (Response OriginBody) Str
unfolding gate_answer trim_space validate_origin imprints
require_origin driver configured method path header db =
    let request = trim_space header in
    if not (str_eq request []) && not (validate_origin request)
    then (db, err (record { status = 400; body = origin_invalid }))
    else gate_answer
        (ensure_origin driver (trim_space configured) request (imprints method path) db)

-- `helloResponse`
pub record HelloResponse : Type 0 where
  pub origin : Str
  pub user_id : Str
  pub server_now_ms : ℤ

-- `helloHandler`
unfoldable pub hello_handler : Str → Str → ℤ → Response HelloResponse
hello_handler origin user_id now = record {
  status = 200;
  body = record { origin = origin; user_id = user_id; server_now_ms = now };
}
