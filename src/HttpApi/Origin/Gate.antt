-- ===== src/HttpApi/Origin/Gate.antt =====
-- What passes the gate of internal/httpapi/origin.go.
use ulsync_server.Prelude.{
  trim_space, ◌≤◌, ◌≡◌, refl, sym, ◌⊎◌, inl, inr, Bool, true, not, ◌&&◌, [], Str, codes, str_eq,
  str_eq_iff, arith, ok, err, Bool-cases, length, Result, if◌then◌else◌,
}
use ulsync_server.Store.Db.{Db, Driver, StoreError}
use ulsync_server.Store.Origin.{empty, ensure_origin}
use ulsync_server.Store.Origin.Contour.{origin_of, ensure_origin_answer, ensure_origin_mail}
use ulsync_server.Config.Origin.{validate_origin, all_origin_chars, max_origin_len}
use ulsync_server.HttpApi.Origin.{imprints, gate_answer, require_origin}

-- The gate and `EnsureOrigin` touch neither the users nor the envelopes.
pub ensure_origin-envelopes :
    (d : Driver) (authored request : Str) (imprint : Bool) (db : Db)
    → ((ensure_origin d authored request imprint db).0.envelopes ≡ db.envelopes)
      × ((ensure_origin d authored request imprint db).0.users ≡ db.users)
unfolding ensure_origin
ensure_origin-envelopes d authored request imprint db = (ground arith, ground arith)

imprints-hello :
    (method path : Str)
    → imprints method path ≡ true
    → (method ≡ codes "GET") × (path ≡ codes "/v1/sync/hello")
unfolding imprints
imprints-hello method path h = (
  (str_eq_iff method (codes "GET")).0 (ground arith),
  (str_eq_iff path (codes "/v1/sync/hello")).0 (ground arith),
)

gate_answer-ok : (r : Db × Result StoreError Str) {o : Str} → (gate_answer r).1 ≡ ok o → r.1 ≡ ok o
unfolding gate_answer
gate_answer-ok (db, err e) h = absurd (ground arith)
gate_answer-ok (db, ok x) h = ground arith

gate_answer-db : (r : Db × Result StoreError Str) → (gate_answer r).0 ≡ r.0
unfolding gate_answer
gate_answer-db (db, err e) = refl
gate_answer-db (db, ok x) = refl

module _ (d : Driver) (configured method path header : Str) (db : Db) where
  pub require_origin-envelopes :
      ((require_origin d configured method path header db).0.envelopes ≡ db.envelopes)
      × ((require_origin d configured method path header db).0.users ≡ db.users)
  unfolding require_origin gate_answer
  require_origin-envelopes =
      let e =
        ensure_origin-envelopes d (trim_space configured) (trim_space header) (imprints method path)
          db in
      (ground (arith, e.0), ground (arith, e.1))

  -- A request that passes the gate is served under the configured origin, or in an open store under
  -- the origin that the store then holds; its header without outer white space is that origin, of
  -- at most 256 characters in the allowed class, or it is empty and no origin is configured; and
  -- the tables are as before, unless the request is a GET of /v1/sync/hello.
  pub require_origin-passes :
      {o : Str}
      → (require_origin d configured method path header db).1 ≡ ok o
      → (o ≡ (
          if empty (trim_space configured)
          then origin_of (require_origin d configured method path header db).0
          else trim_space configured))
        × (((trim_space configured ≡ []) × (trim_space header ≡ []))
            ⊎ ((trim_space header ≡ o) × (length o ≤ max_origin_len) × (all_origin_chars o ≡ true)))
        × (((method ≡ codes "GET") × (path ≡ codes "/v1/sync/hello"))
            ⊎ ((require_origin d configured method path header db).0 ≡ db))
  unfolding require_origin gate_answer validate_origin
  require_origin-passes {o = o} h =
      let request = trim_space header in
      let authored = trim_space configured in
      let r = ensure_origin d authored request (imprints method path) db in
      elim (Bool-cases (not (str_eq request []) && not (validate_origin request))) [
        | inl blocked ↦ absurd (ground arith)
        | inr free ↦
            let passed : r.1 ≡ ok o = gate_answer-ok r (ground arith) in
            let same : (require_origin d configured method path header db).0 ≡ r.0 =
              ground (arith, free, gate_answer-db r) in
            let answer = ensure_origin_answer d authored request (imprints method path) db passed in
            (
              rw same answer.0,
              elim answer.1 [
                | inl (unset, unnamed) ↦
                    inl ((str_eq_iff authored []).0 unset, (str_eq_iff request []).0 unnamed)
                | inr own ↦ inr (
                  sym own,
                  ground (arith, own, free, str_eq_iff request []),
                  ground (arith, own, free, str_eq_iff request []),
                )
              ],
              elim (Bool-cases (imprints method path)) [
                | inl hello ↦ inl (imprints-hello method path hello)
                | inr mail ↦
                    inr (ground (arith, same, mail, ensure_origin_mail d authored request db))
              ],
            )
      ]
