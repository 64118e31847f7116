-- ===== src/Admin.antt =====
-- internal/admin/admin.go: the operations panel's routes behind its bearer check. A request's path is
-- clean, and a handler that writes a page or a stream is represented by what it starts.
pub mod Snapshot
pub mod Guard
use ulsync_server.Prelude.{
  Bool, true, false, not, ◌&&◌, Option, none, some, [], Str, codes, str_eq, trim_space,
  if◌then◌else◌,
}
use ulsync_server.Auth.{AuthSettings, Jwt, Circumstances, Verifier, Diagnosis, valid, diagnose}
use ulsync_server.HttpApi.Server.{cut_space, to_lower, is_get}

-- What decoding the body of a token check comes to.
pub data TokenBody : Type 0 where
  body_eof body_invalid : TokenBody
  body_token : Str → TokenBody

-- `tokenCheckResponse` with the reason as a diagnosis.
pub data TokenReply : Type 0 where
  method_refused empty_body invalid_json : TokenReply
  valid_token : Str → TokenReply
  invalid_token : Diagnosis → TokenReply

pub data PanelReply : Type 0 where
  unauthorized not_found method_not_allowed page events : PanelReply
  token_checked : TokenReply → PanelReply

pub data Route : Type 0 where
  to_page to_events to_token_check wrong_method missing : Route

pub record Request : Type 0 where
  pub method : Str
  pub path : Str
  pub authorization : Str
  pub body : TokenBody

-- `requireAdminBearer`: may the request pass?
unfoldable pub require_admin_bearer : Str → Str → Bool
unfolding cut_space to_lower trim_space
require_admin_bearer want authorization = elim (cut_space authorization) [
  | none ↦ false
  | some (scheme, token) ↦
      str_eq (to_lower scheme) (codes "bearer") && str_eq (trim_space token) want
]

-- The patterns of the mux of `New`.
unfoldable pub admin_route : Str → Str → Route
admin_route method path =
    if str_eq path (codes "/admin")
    then (if is_get method then to_page else wrong_method)
    else if str_eq path (codes "/admin/events")
    then (if is_get method then to_events else wrong_method)
    else if str_eq path (codes "/admin/token-check")
    then (if str_eq method (codes "POST") then to_token_check else wrong_method)
    else missing

module _ {K : Type 0} where
  unfoldable pub answer_diagnosis : Verifier K × Diagnosis → Verifier K × TokenReply
  answer_diagnosis (v, valid subject) = (v, valid_token subject)
  answer_diagnosis (v, other) = (v, invalid_token other)

  unfoldable pub check_token :
      AuthSettings → Jwt K → Circumstances K → TokenBody → Verifier K → Verifier K × TokenReply
  unfolding answer_diagnosis diagnose
  check_token cfg jwt c body_eof v = (v, empty_body)
  check_token cfg jwt c body_invalid v = (v, invalid_json)
  check_token cfg jwt c (body_token token) v =
      answer_diagnosis (diagnose cfg jwt c (trim_space token) v)

  -- `serveTokenCheck`
  unfoldable pub serve_token_check :
      AuthSettings
      → Jwt K
      → Circumstances K
      → Str
      → TokenBody
      → Verifier K
      → Verifier K × TokenReply
  unfolding check_token
  serve_token_check cfg jwt c method body v =
      if str_eq method (codes "POST") then check_token cfg jwt c body v else (v, method_refused)

  unfoldable pub serve_route :
      AuthSettings
      → Jwt K
      → Circumstances K
      → Request
      → Verifier K
      → Route
      → Verifier K × PanelReply
  unfolding serve_token_check
  serve_route cfg jwt c r v to_page = (v, page)
  serve_route cfg jwt c r v to_events = (v, events)
  serve_route cfg jwt c r v to_token_check =
      let checked = serve_token_check cfg jwt c r.method r.body v in
      (checked.0, token_checked checked.1)
  serve_route cfg jwt c r v wrong_method = (v, method_not_allowed)
  serve_route cfg jwt c r v missing = (v, not_found)

  -- The handler of `New` for an `admin.token`.
  unfoldable pub serve_panel :
      Str → AuthSettings → Jwt K → Circumstances K → Request → Verifier K → Verifier K × PanelReply
  unfolding serve_route admin_route require_admin_bearer
  serve_panel token cfg jwt c r v =
      if not (str_eq (trim_space token) [])
        && not (require_admin_bearer (trim_space token) r.authorization)
      then (v, unauthorized)
      else serve_route cfg jwt c r v (admin_route r.method r.path)
