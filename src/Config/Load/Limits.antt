-- ===== src/Config/Load/Limits.antt =====
-- What `Load` of internal/config/config.go accepts.
use ulsync_server.Prelude.{
  ◌≡◌, ◌≢◌, ◌↔◌, ◌⊎◌, refl, sym, subst, true, Option, none, some, List, [], ◌∷◌, Str, str_eq_iff,
  trim_space, arith, ok, All,
}
use ulsync_server.Prelude.Int.{pos, ◌≤ℤ◌, ◌<ℤ◌}
use ulsync_server.Config.{Config, max_envelopes_per_push_ceiling, apply_defaults}
use ulsync_server.Config.Net.{split_host_port}
use ulsync_server.Config.Origin.{validate_origin}
use ulsync_server.Config.Load.{
  unreadable, unparsable, Field, Problem, server_bind, admin_bind, validate_bind, is_loopback_bind,
  checks, gather, validate, Document, decoded, checked, load,
}

-- A bind address that `validateBind` accepts.
pub record IsAddress (bind : Str) : Type 0 where
  pub present : trim_space bind ≢ []
  pub splits : split_host_port bind ≢ none

pub record IsValid (c : Config) : Type 0 where
  pub server : IsAddress c.server.bind
  pub admin : IsAddress c.admin.bind
  pub stored : trim_space c.storage.path ≢ []
  pub contour : (c.origin ≡ []) ⊎ (validate_origin c.origin ≡ true)
  pub body : pos 0 <ℤ c.server.max_body_bytes
  pub page : pos 0 <ℤ c.sync.pull_limit_default
  pub page_max : c.sync.pull_limit_default ≤ℤ c.sync.pull_limit_max
  pub batch : c.sync.max_envelopes_per_push ≤ℤ max_envelopes_per_push_ceiling
  pub guarded : (is_loopback_bind c.admin.bind ≡ true) ⊎ (trim_space c.admin.token ≢ [])

module _ (field : Field) (bind : Str) where
  pub validate_bind-IsAddress : validate_bind field bind ≡ none → IsAddress bind
  unfolding validate_bind
  validate_bind-IsAddress h = ground (arith, str_eq_iff (trim_space bind) [])

  IsAddress-validate_bind : IsAddress bind → validate_bind field bind ≡ none
  unfolding validate_bind
  IsAddress-validate_bind v = ground (arith, str_eq_iff (trim_space bind) [])

gather-nil : (found : List (Option Problem)) → gather found ≡ [] → All (λ o. o ≡ none) found
unfolding gather
gather-nil [] h = tt
gather-nil (none ∷ found) h = (refl, gather-nil found h)
gather-nil (some p ∷ found) h = absurd (ground arith)

gather_of_none : (found : List (Option Problem)) → All (λ o. o ≡ none) found → gather found ≡ []
unfolding gather
gather_of_none [] h = refl
gather_of_none (none ∷ found) h = gather_of_none found h.1
gather_of_none (some p ∷ found) h = absurd (ground (arith, h.0))

module _ (c : Config) where
  checks-IsValid : All (λ o. o ≡ none) (checks c) → IsValid c
  unfolding checks
  checks-IsValid (a, (b, (s, (o, (m, (d, (x, (y, (e, (t, done)))))))))) = record {
    server = validate_bind-IsAddress server_bind _ a;
    admin = validate_bind-IsAddress admin_bind _ b;
    stored = ground (arith, s, str_eq_iff (trim_space c.storage.path) []);
    contour = ground (arith, o, str_eq_iff c.origin []);
    body = ground (arith, m);
    page = ground (arith, d);
    page_max = ground (arith, y);
    batch = ground (arith, e);
    guarded = ground (arith, t, str_eq_iff (trim_space c.admin.token) []);
  }

  IsValid-checks : IsValid c → All (λ o. o ≡ none) (checks c)
  unfolding checks
  IsValid-checks v = (
    IsAddress-validate_bind server_bind _ v.server,
    (
      IsAddress-validate_bind admin_bind _ v.admin,
      (
        ground (arith, v.stored, str_eq_iff (trim_space c.storage.path) []),
        (
          ground (arith, v.contour, str_eq_iff c.origin []),
          (
            ground (arith, v.body),
            (
              ground (arith, v.page),
              (
                ground (arith, v.page, v.page_max),
                (
                  ground (arith, v.page_max),
                  (
                    ground (arith, v.batch),
                    (ground (arith, v.guarded, str_eq_iff (trim_space c.admin.token) []), tt),
                  ),
                ),
              ),
            ),
          ),
        ),
      ),
    ),
  )

  pub validate-nil : (validate c ≡ []) ↔ IsValid c
  unfolding validate
  validate-nil = (
    λ h. checks-IsValid (gather-nil (checks c) h),
    λ v. gather_of_none (checks c) (IsValid-checks v),
  )

checked-ok :
    (c : Config) (ps : List Problem) {r : Config} → (checked c ps ≡ ok r) → (ps ≡ []) × (r ≡ c)
unfolding checked
checked-ok c [] h = ground arith
checked-ok c (p ∷ ps) h = ground arith

module _ (defaults : Config) where
  pub load_valid :
      (c : Config)
      → IsValid (apply_defaults defaults c)
      → load defaults (decoded c) ≡ ok (apply_defaults defaults c)
  unfolding load checked
  load_valid c v = rw ((validate-nil (apply_defaults defaults c)).1 v) refl

  pub load-ok :
      (doc : Document) {r : Config}
      → load defaults doc ≡ ok r
      → (c : Config) × (doc ≡ decoded c) × (r ≡ apply_defaults defaults c) × IsValid r
  unfolding load checked
  load-ok unreadable h = absurd (ground arith)
  load-ok unparsable h = absurd (ground arith)
  load-ok (decoded c) h =
      let e = checked-ok (apply_defaults defaults c) _ h in
      (c, refl, e.1, subst IsValid (sym e.1) ((validate-nil (apply_defaults defaults c)).0 e.0))

  -- Load returns a configuration exactly if the document decodes, the configuration is the document
  -- filled with the defaults, and it is valid: both addresses are present and split into host and
  -- port, the path of the tables is not blank, the origin is empty or in its class, the sizes are
  -- positive, the default page is within the largest, a batch is within the ceiling, and the panel
  -- listens on the loopback or has a token.
  pub load_iff :
      (doc : Document) (r : Config)
      → (load defaults doc ≡ ok r)
        ↔ ((c : Config) × (doc ≡ decoded c) × (r ≡ apply_defaults defaults c) × IsValid r)
  load_iff doc r =
      (λ h. load-ok doc h, λ (c, e, f, v). rw (e, f) (load_valid c (subst IsValid f v)))
