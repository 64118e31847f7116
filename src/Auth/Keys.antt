-- ===== src/Auth/Keys.antt =====
-- Which key internal/auth/verifier.go verifies with, and whom it lets in.
use ulsync_server.Prelude.{
  ◌≡◌, ◌≢◌, ◌↔◌, ◌⊎◌, inl, inr, true, false, some, List, [], Str, str_eq, str_eq_iff, str_eq_refl,
  arith, Bool-cases, Option-cases,
}
use ulsync_server.Auth.{
  AuthSettings, Material, secret, public_key, Jwt, Verifier, Circumstances, Parsed, parsed,
  parse_error, Diagnosis, valid, missing_token, rejected_by_library, token_not_valid, missing_sub,
  subject_of, hs256, find_key, key_func, judge, prepare_keys, diagnose, verify,
}

judge-valid : (p : Parsed) {sub : Str} → judge p ≡ valid sub → (p ≡ parsed true sub) × (sub ≢ [])
unfolding judge
judge-valid parse_error h = absurd (ground arith)
judge-valid (parsed false s) h = absurd (ground arith)
judge-valid (parsed true s) h = elim (Bool-cases (str_eq s [])) [
  | inl none_named ↦ absurd (ground (arith, h, none_named))
  | inr named ↦ (ground (arith, h, named), (λ p. ground (arith, h, named, p, str_eq_refl [])))
]

subject_of-some : (d : Diagnosis) {sub : Str} → subject_of d ≡ some sub → d ≡ valid sub
unfolding subject_of
subject_of-some (valid s) h = ground arith
subject_of-some missing_token h = absurd (ground arith)
subject_of-some rejected_by_library h = absurd (ground arith)
subject_of-some token_not_valid h = absurd (ground arith)
subject_of-some missing_sub h = absurd (ground arith)

module _ {K : Type 0} where
  -- What the key function gives for a header.
  abbrev pub Chosen : AuthSettings → List (Str × K) → Str → Str → Material K → Type 0
  Chosen cfg keys alg kid m =
      ((alg ≡ hs256) × (cfg.dev_hs256_secret ≢ []) × (m ≡ secret cfg.dev_hs256_secret))
      ⊎ ((alg ≢ hs256)
          × (kid ≢ [])
          × ((key : K) × (find_key kid keys ≡ some key) × (m ≡ public_key key)))

  to_Chosen :
      (cfg : AuthSettings) (keys : List (Str × K)) (alg kid : Str) (m : Material K)
      → key_func cfg keys alg kid ≡ some m
      → Chosen cfg keys alg kid m
  unfolding key_func
  to_Chosen cfg keys alg kid m h = elim (Bool-cases (str_eq alg hs256)) [
    | inl hmac ↦ inl (
      (str_eq_iff alg hs256).0 hmac,
      (λ p. ground (arith, h, hmac, p, str_eq_refl [])),
      ground (arith, h, hmac),
    )
    | inr other ↦ elim (Option-cases (find_key kid keys)) [
      | inl missing ↦ absurd (ground (arith, h, other, missing))
      | inr (key, found) ↦ inr (
        (λ p. ground (arith, other, p, str_eq_refl hs256)),
        (λ p. ground (arith, h, other, p, str_eq_refl [])),
        (key, found, ground (arith, h, other, found)),
      )
    ]
  ]

  of_Chosen :
      (cfg : AuthSettings) (keys : List (Str × K)) (alg kid : Str) (m : Material K)
      → Chosen cfg keys alg kid m
      → key_func cfg keys alg kid ≡ some m
  unfolding key_func
  of_Chosen cfg keys alg kid m (inl (hmac, set, e)) =
      ground (arith, hmac, set, e, str_eq_refl hs256, str_eq_iff cfg.dev_hs256_secret [])
  of_Chosen cfg keys alg kid m (inr (other, named, (key, found, e))) =
      ground (arith, other, named, found, e, str_eq_iff alg hs256, str_eq_iff kid [])

  -- The key of a token is the secret exactly for HS256 and if the secret is set; for every other
  -- algorithm it is the public key of the kid, and never the secret.
  pub key_func_iff :
      (cfg : AuthSettings) (keys : List (Str × K)) (alg kid : Str) (m : Material K)
      → (key_func cfg keys alg kid ≡ some m) ↔ Chosen cfg keys alg kid m
  key_func_iff cfg keys alg kid m = (to_Chosen cfg keys alg kid m, of_Chosen cfg keys alg kid m)

  -- A token that Verify lets in names a subject that is not empty, and the library verified it with
  -- the key function over the key set that the call ends with.
  pub verify-some :
      (cfg : AuthSettings) (jwt : Jwt K) (c : Circumstances K) (bearer : Str) (v : Verifier K)
      {sub : Str}
      → (verify cfg jwt c bearer v).1 ≡ some sub
      → (sub ≢ [])
        × (jwt.parse_with_claims bearer (key_func cfg (verify cfg jwt c bearer v).0.keys)
            ≡ parsed true sub)
  unfolding verify diagnose
  verify-some cfg jwt c bearer v {sub = sub} h = elim (Bool-cases (str_eq bearer [])) [
    | inl missing ↦
        let d : missing_token ≡ valid sub =
          ground (arith, missing, subject_of-some (diagnose cfg jwt c bearer v).1 h) in
        absurd (ground (arith, d))
    | inr present ↦
        let p =
          jwt.parse_with_claims bearer (key_func cfg (prepare_keys cfg jwt c bearer v).0.keys) in
        let judged : judge p ≡ valid sub =
          ground (arith, present, subject_of-some (diagnose cfg jwt c bearer v).1 h) in
        simp present ((judge-valid p judged).1, (judge-valid p judged).0)
  ]
