-- ===== src/System/Authorised.antt =====
-- A row changes only at the request of its user.
use ulsync_server.Prelude.{
  ◌≡◌, ◌≢◌, refl, ap, subst, true, not, ◌||◌, Option, some, [], Str, codes, str_eq, str_eq_iff,
  trim_space, ℕ, arith, Bool-cases, Option-cases, inl, inr,
}
use ulsync_server.Prelude.Int.{ℤ}
use ulsync_server.Store.Envelope.{Key}
use ulsync_server.Store.Db.{find_row}
use ulsync_server.Auth.{Circumstances, parsed, key_func, verify}
use ulsync_server.Auth.Keys.{verify-some}
use ulsync_server.HttpApi.Server.{Request, cut_space, to_lower, require_bearer}
use ulsync_server.HttpApi.Server.Users.{find_row-serve, serve-unauthorized}
use ulsync_server.Command.Start.{settings, auth_settings}
use ulsync_server.System.{
  Process, System, Action, calls, asks_panel, ticks, bearer_of, served, show_frame, call, act,
}

require_bearer-some :
    (verify : Str → Option Str) (authorization : Str) {u : Str}
    → require_bearer verify authorization ≡ some u
    → (token : Str) × (bearer_of authorization ≡ some token) × (verify token ≡ some u)
unfolding require_bearer bearer_of
require_bearer-some verify authorization h = elim (Option-cases (cut_space authorization)) [
  | inl e ↦ absurd (ground (arith, e, h))
  | inr ((scheme, token), e) ↦
      elim (Bool-cases
        (not (str_eq (to_lower scheme) (codes "bearer")) || str_eq (trim_space token) [])) [
          | inl k ↦ absurd (ground (arith, e, k, h))
          | inr k ↦ (trim_space token, ground (arith, e, k), ground (arith, e, k, h))
        ]
]

module _ {K : Type 0} (w : Process K) (s : System K) (u : Str) (key : Key) where
  -- The action is a request with a token that the library verified for the user, with the keys that
  -- the configuration names.
  abbrev pub Asked : Action K → Type 0
  Asked a =
      (c : Circumstances K) × (r : Request) × (elapsed : ℕ) × (at : ℤ) × (token : Str) × (a
        ≡ calls c r elapsed at)
      × (bearer_of r.authorization ≡ some token)
      × (u ≢ [])
      × (w.jwt.parse_with_claims token (
            key_func (auth_settings w.config)
              (verify (auth_settings w.config) w.jwt c token s.verifier).0.keys)
          ≡ parsed true u)

  node_of_call :
      (c : Circumstances K) (r : Request) (elapsed : ℕ) (at : ℤ)
      → (call w c r elapsed at s).node ≡ (served w c r s).0
  unfolding call
  node_of_call c r elapsed at = ground arith

  -- An action of the process changes a row of a user only if it is a request whose bearer token the
  -- library verified, with the keys that the configuration names, as a token of that user, whose
  -- name is not empty.
  pub find_row-act :
      (a : Action K)
      → find_row u key (act w a s).node.db.envelopes ≢ find_row u key s.node.db.envelopes
      → Asked a
  unfolding act show_frame served
  find_row-act (asks_panel c r) h = absurd (h refl)
  find_row-act (ticks t now driver) h = absurd (h refl)
  find_row-act (calls c r elapsed at) h =
      let V = λ (token : Str). (verify (auth_settings w.config) w.jwt c token s.verifier).1 in
      let changed =
        subst (λ n. find_row u key n.db.envelopes ≢ find_row u key s.node.db.envelopes)
          (node_of_call c r elapsed at) h in
      elim (Option-cases (require_bearer V r.authorization)) [
        | inl e ↦ absurd (
            changed (
              ap (λ n. find_row u key n.db.envelopes)
                (serve-unauthorized V (settings w.config) r s.node e).0))
        | inr (v, e) ↦ elim (Bool-cases (str_eq v u)) [
          | inl same ↦
              let (token, t, k) = require_bearer-some V r.authorization e in
              let (p, q) =
                verify-some (auth_settings w.config) w.jwt c token s.verifier
                  (subst (λ x. V token ≡ some x) ((str_eq_iff v u).0 same) k) in
              (c, r, elapsed, at, token, refl, t, p, q)
          | inr other ↦
              absurd (changed (find_row-serve v u key other (settings w.config) r V s.node e))
        ]
      ]
