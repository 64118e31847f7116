-- ===== src/System/Invariant.antt =====
-- What holds of the shared state of cmd/ulsync-server/main.go as long as the process runs.
use ulsync_server.Prelude.{
  ◌≡◌, refl, List, [], ◌∷◌, All, Str, codes, str_eq, trim_space, not, ◌&&◌, if_both, Option-cases,
  inl, inr, subst, sym,
}
use ulsync_server.Auth.{
  AuthSettings, Jwt, Circumstances, Verifier, Diagnosis, valid, missing_token, rejected_by_library,
  token_not_valid, missing_sub, diagnose, verify,
}
use ulsync_server.Auth.Jwks.{PublicKey}
use ulsync_server.Auth.Fetch.{FileRead, Fetch, load_keys}
use ulsync_server.Auth.Fetch.Sound.{IsEntry, diagnose-IsEntry}
use ulsync_server.HttpApi.Server.{Request, root_route}
use ulsync_server.HttpApi.Server.Safety.{Fair, serve-IsValid}
use ulsync_server.HttpApi.Server.Safety as Shared
use ulsync_server.Admin
use ulsync_server.Admin.{
  TokenBody, body_eof, body_invalid, body_token, TokenReply, PanelReply, Route, to_page, to_events,
  to_token_check, wrong_method, missing, answer_diagnosis, check_token, serve_token_check,
  serve_route, serve_panel, require_admin_bearer, admin_route,
}
use ulsync_server.Command.Start.{settings, auth_settings}
use ulsync_server.System.{
  Process, System, Action, calls, asks_panel, ticks, bearer_of, is_wrapped, served, verified,
  show_frame, call, act, run,
}

-- The reloads of a call come from the sources that are configured.
abbrev pub Loads : AuthSettings → Circumstances PublicKey → Type 0
Loads cfg c =
    (f g : FileRead) × (a b : Fetch) × (c.refreshed ≡ load_keys cfg f a)
    × (c.refetched ≡ load_keys cfg g b)

abbrev Sound : Verifier PublicKey → Type 0
Sound v = All IsEntry v.keys

answer_diagnosis-0 : (r : Verifier PublicKey × Diagnosis) → (answer_diagnosis r).0 ≡ r.0
unfolding answer_diagnosis
answer_diagnosis-0 (v, valid subject) = refl
answer_diagnosis-0 (v, missing_token) = refl
answer_diagnosis-0 (v, rejected_by_library) = refl
answer_diagnosis-0 (v, token_not_valid) = refl
answer_diagnosis-0 (v, missing_sub) = refl

module _ (cfg : AuthSettings) (jwt : Jwt PublicKey) (c : Circumstances PublicKey)
    (loads : Loads cfg c) where
  diagnose-Sound :
      (bearer : Str) (v : Verifier PublicKey) → Sound v → Sound (diagnose cfg jwt c bearer v).0
  diagnose-Sound bearer v h =
      let (f, g, a, b, p, q) = loads in diagnose-IsEntry cfg jwt c bearer v f g a b p q h

  verify-Sound :
      (bearer : Str) (v : Verifier PublicKey) → Sound v → Sound (verify cfg jwt c bearer v).0
  unfolding verify
  verify-Sound bearer v h = diagnose-Sound bearer v h

  check_token-Sound :
      (body : TokenBody) (v : Verifier PublicKey) → Sound v → Sound (check_token cfg jwt c body v).0
  unfolding check_token
  check_token-Sound body_eof v h = h
  check_token-Sound body_invalid v h = h
  check_token-Sound (body_token token) v h =
      subst Sound (sym (answer_diagnosis-0 (diagnose cfg jwt c (trim_space token) v)))
        (diagnose-Sound (trim_space token) v h)

  serve_route-Sound :
      (r : Admin.Request) (v : Verifier PublicKey) (route : Route)
      → Sound v
      → Sound (serve_route cfg jwt c r v route).0
  unfolding serve_route serve_token_check
  serve_route-Sound r v to_page h = h
  serve_route-Sound r v to_events h = h
  serve_route-Sound r v to_token_check h =
      if_both (λ (x : Verifier PublicKey × TokenReply). Sound x.0) (str_eq r.method (codes "POST"))
        (check_token-Sound r.body v h) h
  serve_route-Sound r v wrong_method h = h
  serve_route-Sound r v missing h = h

  serve_panel-Sound :
      (token : Str) (r : Admin.Request) (v : Verifier PublicKey)
      → Sound v
      → Sound (serve_panel token cfg jwt c r v).0
  unfolding serve_panel
  serve_panel-Sound token r v h =
      if_both (λ (x : Verifier PublicKey × PanelReply). Sound x.0)
        (not (str_eq (trim_space token) [])
          && not (require_admin_bearer (trim_space token) r.authorization))
        h (serve_route-Sound r v (admin_route r.method r.path) h)

-- The tables and the registry are well formed, and each key of the verifier is sound.
pub record IsValid (s : System PublicKey) : Type 0 where
  pub shared : Shared.IsValid s.node
  pub keys : All IsEntry s.verifier.keys

module _ (w : Process PublicKey) where
  -- An action with reloads from the configured sources; during a request others keep the registry
  -- well formed.
  abbrev pub Fit : Action PublicKey → Type 0
  Fit (calls c r elapsed at) = Fair r × Loads (auth_settings w.config) c
  Fit (asks_panel c r) = Loads (auth_settings w.config) c
  Fit (ticks t now driver) = Unit

  verified-Sound :
      (c : Circumstances PublicKey) (r : Request) (s : System PublicKey)
      → Loads (auth_settings w.config) c
      → Sound s.verifier
      → Sound (verified w c r s)
  unfolding verified
  verified-Sound c r s loads h = elim (Option-cases (bearer_of r.authorization)) [
    | inl e ↦ rw (verified, e) h
    | inr (token, e) ↦
        rw (verified, e) (verify-Sound (auth_settings w.config) w.jwt c loads token s.verifier h)
  ]

  served-IsValid :
      (c : Circumstances PublicKey) (r : Request) (s : System PublicKey)
      → Fair r
      → Shared.IsValid s.node
      → Shared.IsValid (served w c r s).0
  unfolding served
  served-IsValid c r s fair h =
      serve-IsValid (settings w.config) r fair
        (λ token. (verify (auth_settings w.config) w.jwt c token s.verifier).1) s.node h

  act-IsValid :
      (a : Action PublicKey) (s : System PublicKey) → Fit a → IsValid s → IsValid (act w a s)
  unfolding act call show_frame
  act-IsValid (calls c r elapsed at) s f h =
      if_both IsValid (is_wrapped (root_route r.method r.path))
        (record {
          shared = served-IsValid c r s f.0 h.shared;
          keys = verified-Sound c r s f.1 h.keys;
        })
        (record { shared = served-IsValid c r s f.0 h.shared; keys = h.keys })
  act-IsValid (asks_panel c r) s f h = record {
    shared = h.shared;
    keys =
        serve_panel-Sound (auth_settings w.config) w.jwt c f w.config.admin.token r s.verifier
          h.keys;
  }
  act-IsValid (ticks t now driver) s f h = record { shared = h.shared; keys = h.keys }

  -- Over any actions of the process the tables and the registry stay well formed, and every key
  -- that the verifier holds keeps a kid that is not empty and is sound, an RSA key with a positive
  -- modulus and an exponent from 2 to 2^24, or a point of P-256; if each reload of an action comes
  -- from the configured source, and what others do to the registry during each request keeps it
  -- well formed.
  pub run-IsValid :
      (actions : List (Action PublicKey)) (s : System PublicKey)
      → All Fit actions
      → IsValid s
      → IsValid (run w actions s)
  unfolding run
  run-IsValid [] s f h = h
  run-IsValid (a ∷ actions) s f h =
      act-IsValid a (run w actions s) f.0 (run-IsValid actions s f.1 h)
