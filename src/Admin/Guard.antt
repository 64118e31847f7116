-- ===== src/Admin/Guard.antt =====
-- Who passes the bearer check of internal/admin/admin.go.
use ulsync_server.Prelude.{
  ◌≡◌, ◌≢◌, ◌⊎◌, inl, inr, true, false, some, [], Str, codes, str_eq_iff, trim_space, arith, ok,
  Bool-cases, Option-cases,
}
use ulsync_server.Auth.{AuthSettings, Jwt, Circumstances, Verifier}
use ulsync_server.HttpApi.Server.{cut_space, to_lower}
use ulsync_server.Config.{Config}
use ulsync_server.Config.Load.{Document, load, is_loopback_bind}
use ulsync_server.Config.Load.Limits.{load-ok}
use ulsync_server.Admin.{Request, unauthorized, require_admin_bearer, serve_panel}

-- The header is the scheme Bearer, in any case, a space, and the token.
abbrev pub Bears : Str → Str → Type 0
Bears token header =
    (scheme : Str) × (rest : Str) × (cut_space header ≡ some (scheme, rest))
    × (to_lower scheme ≡ codes "bearer")
    × (trim_space rest ≡ token)

require_admin_bearer-Bears :
    (token header : Str) → require_admin_bearer token header ≡ true → Bears token header
unfolding require_admin_bearer
require_admin_bearer-Bears token header h = elim (Option-cases (cut_space header)) [
  | inl e ↦ absurd (ground (arith, e, h))
  | inr ((scheme, rest), e) ↦ (
    scheme,
    rest,
    e,
    ground (arith, e, h, str_eq_iff (to_lower scheme) (codes "bearer")),
    ground (arith, e, h, str_eq_iff (trim_space rest) token),
  )
]

module _ {K : Type 0} (jwt : Jwt K) (c : Circumstances K) (settings : AuthSettings) (r : Request)
    (v : Verifier K) where
  serve_panel-Bears :
      (token : Str)
      → trim_space token ≢ []
      → ((serve_panel token settings jwt c r v ≡ (v, unauthorized))
          ⊎ Bears (trim_space token) r.authorization)
  unfolding serve_panel
  serve_panel-Bears token h =
      elim (Bool-cases (require_admin_bearer (trim_space token) r.authorization)) [
        | inl e ↦ inr (require_admin_bearer-Bears (trim_space token) r.authorization e)
        | inr e ↦ inl (ground (arith, e, str_eq_iff (trim_space token) [], h))
      ]

  -- Under a configuration that Load accepted, with a panel that does not listen on the loopback
  -- alone, a request without the bearer token of the panel is answered 401 and leaves the verifier
  -- as it was.
  pub serve_panel-guarded :
      (defaults : Config) (doc : Document) {cfg : Config}
      → load defaults doc ≡ ok cfg
      → is_loopback_bind cfg.admin.bind ≡ false
      → (serve_panel cfg.admin.token settings jwt c r v ≡ (v, unauthorized))
        ⊎ Bears (trim_space cfg.admin.token) r.authorization
  serve_panel-guarded defaults doc {cfg} h open_bind =
      let (d, e, f, valid) = load-ok defaults doc h in
      serve_panel-Bears cfg.admin.token (ground (arith, open_bind, valid.guarded))
