-- ===== src/Config/Seed/Loads.antt =====
-- The document of the first run is one that `Load` accepts as it is.
use ulsync_server.Prelude.{
  ◌≡◌, ◌≢◌, ◌⊎◌, inl, inr, refl, sym, subst, true, false, some, [], ◌∷◌, Str, codes, str_eq,
  str_eq_iff, trim_space, arith, ok, bind-ok, Bool-cases, Option-cases,
}
use ulsync_server.Prelude.Trim.{trim_space-trim_space}
use ulsync_server.Config.{
  Config, embedded, is_blank, apply_defaults, fill_server, fill_auth, fill_sync, fill_text,
  fill_number, fill_slice,
}
use ulsync_server.Config.Net.{split_host_port}
use ulsync_server.Config.Load.{
  Field, server_bind, admin_bind, validate_bind, is_loopback_bind, load, decoded,
}
use ulsync_server.Config.Load.Limits.{IsAddress, IsValid, validate_bind-IsAddress, load_valid}
use ulsync_server.Config.Seed.{
  seed_bind, set_authority, seed_base, with_binds, seed_addresses, seed_at, seed,
}

seed_bind-IsAddress :
    (field : Field) (usual given : Str) {a : Str}
    → IsAddress usual
    → seed_bind field usual given ≡ ok a
    → IsAddress a
unfolding seed_bind
seed_bind-IsAddress field usual given {a} v h = elim (Bool-cases (is_blank given)) [
  | inl b ↦ subst IsAddress (ground (arith, b)) v
  | inr b ↦ elim (Option-cases (validate_bind field (trim_space given))) [
    | inl e ↦
        subst IsAddress (ground (arith, b, e)) (validate_bind-IsAddress field (trim_space given) e)
    | inr (p, e) ↦ absurd (ground (arith, b, e))
  ]
]

-- The two addresses of a seed.
record IsSeeded (base c : Config) : Type 0 where
  server_address : Str
  admin_address : Str
  server_valid : IsAddress server_address
  admin_valid : IsAddress admin_address
  guarded : (is_loopback_bind admin_address ≡ true) ⊎ (trim_space base.admin.token ≢ [])
  made : c ≡ (record base {
    server = record base.server { bind = server_address };
    admin = record base.admin { bind = admin_address };
  })

seed_addresses-IsSeeded :
    (base : Config) (server_given admin_given : Str) {c : Config}
    → IsAddress base.server.bind
    → IsAddress base.admin.bind
    → seed_addresses base server_given admin_given ≡ ok c
    → IsSeeded base c
unfolding seed_addresses with_binds
seed_addresses-IsSeeded base server_given admin_given {c} v w h =
    let (a, e, k) = bind-ok (seed_bind server_bind base.server.bind server_given) _ h in
    let (b, f, l) = bind-ok (seed_bind admin_bind base.admin.bind admin_given) _ k in
    record {
      server_address = a;
      admin_address = b;
      server_valid = seed_bind-IsAddress server_bind base.server.bind server_given v e;
      admin_valid = seed_bind-IsAddress admin_bind base.admin.bind admin_given w f;
      guarded = ground (arith, l, str_eq_iff (trim_space base.admin.token) []);
      made = ground (arith, l);
    }

usual_server : IsAddress (codes "0.0.0.0:8080")
unfolding trim_space split_host_port
usual_server = record { present = ground arith; splits = ground arith }

usual_admin : IsAddress (codes "127.0.0.1:8081")
unfolding trim_space split_host_port
usual_admin = record { present = ground arith; splits = ground arith }

IsAddress-ne : (a : Str) → IsAddress a → str_eq a [] ≡ false
unfolding str_eq trim_space
IsAddress-ne [] v = absurd (v.present refl)
IsAddress-ne (c ∷ a) v = refl

present-ne : (s : Str) → trim_space s ≢ [] → str_eq s [] ≡ false
unfolding str_eq trim_space
present-ne [] v = absurd (v refl)
present-ne (c ∷ a) v = refl

-- The document with the given addresses.
module _ (path jwks_url secret : Str) where
  seeded : Str → Str → Config
  unfolding set_authority seed_base
  seeded server_address admin_address = record (seed_base embedded path) {
    auth = set_authority jwks_url secret (seed_base embedded path).auth;
    server = record (seed_base embedded path).server { bind = server_address };
    admin = record (seed_base embedded path).admin { bind = admin_address };
  }

module _ (path : Str) (present : trim_space path ≢ []) (jwks_url secret : Str)
    (one : (str_eq jwks_url [] ≡ false)
      ⊎ ((str_eq jwks_url [] ≡ true) × (is_blank secret ≡ false))) where
  apply_defaults-seeded :
      (a b : Str)
      → IsAddress a
      → IsAddress b
      → apply_defaults embedded (seeded path jwks_url secret a b) ≡ seeded path jwks_url secret a b
  unfolding apply_defaults seeded set_authority seed_base fill_server fill_auth fill_sync fill_text
      fill_number fill_slice
  apply_defaults-seeded a b v w = elim one [
    | inl o ↦ ground (arith, o, IsAddress-ne a v, IsAddress-ne b w, present-ne path present)
    | inr (o, k) ↦ ground (arith, o, k, IsAddress-ne a v, IsAddress-ne b w, present-ne path present)
  ]

  seeded-IsValid :
      (a b : Str)
      → IsAddress a
      → IsAddress b
      → (is_loopback_bind b ≡ true)
      → IsValid (seeded path jwks_url secret a b)
  unfolding seeded set_authority seed_base
  seeded-IsValid a b v w g = record {
    server = v;
    admin = w;
    stored = present;
    contour = inl refl;
    body = omega arith;
    page = omega arith;
    page_max = omega arith;
    batch = omega arith;
    guarded = inl g;
  }

  seeded_loads :
      (a b : Str)
      → IsAddress a
      → IsAddress b
      → (is_loopback_bind b ≡ true)
      → load embedded (decoded (seeded path jwks_url secret a b))
        ≡ ok (seeded path jwks_url secret a b)
  seeded_loads a b v w g =
      let e = apply_defaults-seeded a b v w in
      subst (λ x. load embedded (decoded (seeded path jwks_url secret a b)) ≡ ok x) e
        (load_valid embedded (seeded path jwks_url secret a b)
          (subst IsValid (sym e) (seeded-IsValid a b v w g)))

module _ (path jwks_url secret server_given admin_given : Str) {c : Config} where
  seed_at-made :
      seed_at embedded (some path) jwks_url secret server_given admin_given ≡ ok c
      → (a : Str) × (b : Str) × IsAddress a
        × IsAddress b
        × (is_loopback_bind b ≡ true)
        × (c ≡ seeded path jwks_url secret a b)
  unfolding seed_at seeded
  seed_at-made h =
      let (c', e, k) =
        bind-ok (seed_addresses (seed_base embedded path) server_given admin_given) _ h in
      let v =
        seed_addresses-IsSeeded (seed_base embedded path) server_given admin_given usual_server_base
          usual_admin_base e in
      (
        v.server_address,
        v.admin_address,
        v.server_valid,
        v.admin_valid,
        loop v.admin_address v.guarded,
        ground (arith, k, v.made),
      )
    where
      usual_server_base : IsAddress (seed_base embedded path).server.bind
      usual_server_base = unfold seed_base in usual_server

      usual_admin_base : IsAddress (seed_base embedded path).admin.bind
      usual_admin_base = unfold seed_base in usual_admin

      loop :
          (b : Str)
          → (is_loopback_bind b ≡ true) ⊎ (trim_space (seed_base embedded path).admin.token ≢ [])
          → is_loopback_bind b ≡ true
      loop b (inl g) = g
      loop b (inr n) = unfold seed_base trim_space in absurd (n refl)

module _ (path jwks_url secret server_given admin_given : Str) {c : Config} where
  -- A seed that is read back as it is loads to itself, if the path of its tables is not blank.
  pub seed-load :
      trim_space path ≢ []
      → seed embedded (some path) jwks_url secret server_given admin_given ≡ ok c
      → load embedded (decoded c) ≡ ok c
  unfolding seed
  seed-load present h =
      let one : (is_blank jwks_url ≡ false)
          ⊎ ((is_blank jwks_url ≡ true) × (is_blank (trim_space secret) ≡ false)) =
        ground (arith, h, trim_space-trim_space secret) in
      let k : seed_at embedded (some path) (trim_space jwks_url) (trim_space secret) server_given
            admin_given
          ≡ ok c =
        ground (arith, h) in
      let (a, b, v, w, g, e) =
        seed_at-made path (trim_space jwks_url) (trim_space secret) server_given admin_given k in
      subst (λ x. load embedded (decoded x) ≡ ok x) (sym e)
        (seeded_loads path present (trim_space jwks_url) (trim_space secret) one a b v w g)
