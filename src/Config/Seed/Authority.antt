-- ===== src/Config/Seed/Authority.antt =====
-- The document of the first run trusts one authority.
use ulsync_server.Prelude.{
  ◌≡◌, ◌≢◌, ◌⊎◌, inl, inr, refl, sym, subst, ap, true, Option, none, some, List, [], ◌∷◌, ◌++◌, Str,
  str_eq, str_eq_iff, trim_space, arith, ok, bind-ok, Bool-cases, In,
}
use ulsync_server.Config.{Config, Auth}
use ulsync_server.Config.Seed.{
  alg_hs256, seed_bind, set_authority, seed_base, with_binds, seed_addresses, seed_at, seed,
  seen_hs256, append_hs256, with_hs256,
}

append_hs256-snoc : (algs : List Str) → append_hs256 algs ≡ algs ++ alg_hs256 ∷ []
unfolding append_hs256
append_hs256-snoc [] = refl
append_hs256-snoc (a ∷ algs) = ap (λ t. a ∷ t) (append_hs256-snoc algs)

seen_hs256-In : (algs : List Str) → seen_hs256 algs ≡ true → In alg_hs256 algs
unfolding seen_hs256
seen_hs256-In [] h = absurd (ground arith)
seen_hs256-In (a ∷ algs) h = elim (Bool-cases (str_eq a alg_hs256)) [
  | inl e ↦ inl (sym ((str_eq_iff a alg_hs256).0 e))
  | inr e ↦ inr (seen_hs256-In algs (ground (arith, h, e)))
]

In-snoc : (algs : List Str) → In alg_hs256 (algs ++ alg_hs256 ∷ [])
In-snoc [] = inl refl
In-snoc (a ∷ algs) = inr (In-snoc algs)

-- HS256 is among the algorithms, and the others stay in front, in their order.
pub with_hs256-In : (algs : Option (List Str)) → In alg_hs256 (with_hs256 algs)
unfolding with_hs256
with_hs256-In none = inl refl
with_hs256-In (some algs) = elim (Bool-cases (seen_hs256 algs)) [
  | inl e ↦ subst (In alg_hs256) (ground (arith, e)) (seen_hs256-In algs e)
  | inr e ↦ subst (In alg_hs256) (ground (arith, e, append_hs256-snoc algs)) (In-snoc algs)
]

with_binds-auth : (a b : Str) (c : Config) {r : Config} → with_binds a b c ≡ ok r → r.auth ≡ c.auth
unfolding with_binds
with_binds-auth a b c h = ground (arith, h)

module _ (c : Config) (server_given admin_given : Str) {r : Config} where
  seed_addresses-auth : seed_addresses c server_given admin_given ≡ ok r → r.auth ≡ c.auth
  unfolding seed_addresses
  seed_addresses-auth h =
      let (a, e, k) = bind-ok (seed_bind _ c.server.bind server_given) _ h in
      let (b, f, l) = bind-ok (seed_bind _ c.admin.bind admin_given) _ k in with_binds-auth a b c l

-- What the auth section of a seed holds for the two flags.
abbrev pub Trusts : (jwks_url secret : Str) → Auth → Type 0
Trusts jwks_url secret a =
    ((jwks_url ≢ []) × (secret ≡ []) × (a.jwks_url ≡ jwks_url) × (a.dev_hs256_secret ≡ []))
    ⊎ ((jwks_url ≡ [])
        × (secret ≢ [])
        × (a.jwks_url ≡ [])
        × (a.dev_hs256_secret ≡ secret)
        × ((algs : List Str) × (a.allowed_algs ≡ some algs) × In alg_hs256 algs))

seed_at-auth :
    (defaults : Config) (path : Option Str) (jwks_url secret server_given admin_given : Str)
    {c : Config}
    → seed_at defaults path jwks_url secret server_given admin_given ≡ ok c
    → c.auth ≡ set_authority jwks_url secret defaults.auth
unfolding seed_at seed_base
seed_at-auth defaults none jwks_url secret server_given admin_given h = absurd (ground arith)
seed_at-auth defaults (some path) jwks_url secret server_given admin_given h =
    let (r, e, k) =
      bind-ok (seed_addresses (seed_base defaults path) server_given admin_given) _ h in
    let same = seed_addresses-auth (seed_base defaults path) server_given admin_given e in
    ground (arith, k, same)

set_authority-Trusts :
    (jwks_url secret : Str) (a : Auth)
    → ((jwks_url ≢ []) × (secret ≡ [])) ⊎ ((jwks_url ≡ []) × (secret ≢ []))
    → Trusts jwks_url secret (set_authority jwks_url secret a)
unfolding set_authority str_eq
set_authority-Trusts [] secret a (inl (h, k)) = absurd (h refl)
set_authority-Trusts [] secret a (inr (h, k)) =
    inr (refl, k, refl, refl, (with_hs256 a.allowed_algs, refl, with_hs256-In a.allowed_algs))
set_authority-Trusts (x ∷ jwks_url) secret a (inl (h, k)) = inl (h, k, refl, refl)
set_authority-Trusts (x ∷ jwks_url) secret a (inr (h, k)) = absurd (ground (arith, h))

-- A seed trusts one authority: with a URL it has the URL and no secret, and with a secret it has
-- the secret, no URL, and HS256 among the accepted algorithms; with both or with neither there is
-- no seed.
pub seed-Trusts :
    (defaults : Config) (path : Option Str) (jwks_url secret server_given admin_given : Str)
    {c : Config}
    → seed defaults path jwks_url secret server_given admin_given ≡ ok c
    → Trusts (trim_space jwks_url) (trim_space secret) c.auth
unfolding seed
seed-Trusts defaults path jwks_url secret server_given admin_given {c} h =
    let one : ((trim_space jwks_url ≢ []) × (trim_space secret ≡ []))
        ⊎ ((trim_space jwks_url ≡ []) × (trim_space secret ≢ [])) =
      ground (arith, h, str_eq_iff (trim_space jwks_url) [], str_eq_iff (trim_space secret) []) in
    let k : seed_at defaults path (trim_space jwks_url) (trim_space secret) server_given admin_given
        ≡ ok c =
      ground (arith, h) in
    rw
      (seed_at-auth defaults path (trim_space jwks_url) (trim_space secret) server_given admin_given
        k)
      (set_authority-Trusts (trim_space jwks_url) (trim_space secret) defaults.auth one)
