-- ===== src/Auth/Jwks/Usable.antt =====
-- Which keys of a document internal/auth/jwks.go keeps.
use ulsync_server.Prelude.{
  ℕ, ◌+◌, ◌*◌, ◌^◌, ◌≤◌, ◌<◌, ◌≡◌, ◌≢◌, ◌↔◌, ◌⊎◌, inl, inr, refl, ap, sym, subst, ◌∙◌, Bool, true,
  false, ◌||◌, any, some, List, [], ◌∷◌, ◌++◌, Str, codes, str_eq, str_eq_iff, str_eq_refl, arith,
  Bool-cases, ok, err, Result-cases, bind-ok, length, Option-cases, ltb, ◌==◌, if◌then◌else◌,
}
use ulsync_server.Auth.{find_key}
use ulsync_server.Auth.Jwks.{
  decode_base64_url, rsa_of_bytes, ecdsa_of_bytes, ecdsa_p256, Jwk, PublicKey, rsa, ecdsa, or_skip,
  set_bytes, exponent, rsa_of, rsa_public_key, is_on_curve, ecdsa_of, ecdsa_public_key,
  public_key_from_jwk, put_key, keep_key, add_keys, parse_jwks,
}

find_key-put_key :
    (kid k : Str) (key : PublicKey) (keys : List (Str × PublicKey))
    → find_key kid (put_key k key keys) ≡ (if str_eq k kid then some key else find_key kid keys)
unfolding put_key find_key
find_key-put_key kid k key [] = refl
find_key-put_key kid k key ((j, old) ∷ keys) =
    ground
      (arith, find_key-put_key kid k key keys, str_eq_iff j k, str_eq_iff k kid, str_eq_iff j kid)

-- Does the entry give a key under the kid?
unfoldable pub gives : Str → Jwk → Bool
gives kid k = elim (public_key_from_jwk k) [ err r ↦ false | ok key ↦ str_eq k.kid kid ]

find_key-keep_key_none :
    (kid : Str) (k : Jwk) (keys : List (Str × PublicKey))
    → gives kid k ≡ false
    → find_key kid (keep_key k.kid (public_key_from_jwk k) keys) ≡ find_key kid keys
unfolding keep_key gives
find_key-keep_key_none kid k keys h = elim (Result-cases (public_key_from_jwk k)) [
  | inl (key, e) ↦ ground (arith, h, e, find_key-put_key kid k.kid key keys)
  | inr (r, e) ↦ ground (arith, e)
]

find_key-add_keys_none :
    (kid : Str) (keys : List (Str × PublicKey)) (ks : List Jwk)
    → any (gives kid) ks ≡ false
    → find_key kid (add_keys keys ks) ≡ find_key kid keys
unfolding add_keys
find_key-add_keys_none kid keys [] h = refl
find_key-add_keys_none kid keys (k ∷ ks) h =
    find_key-add_keys_none kid (keep_key k.kid (public_key_from_jwk k) keys) ks (ground (arith, h))
    ∙ find_key-keep_key_none kid k keys (ground (arith, h))

-- An entry that gives a key under the kid.
given :
    (kid : Str) (k : Jwk) (keys : List (Str × PublicKey)) {key : PublicKey}
    → gives kid k ≡ true
    → find_key kid (keep_key k.kid (public_key_from_jwk k) keys) ≡ some key
    → (k.kid ≡ kid) × (public_key_from_jwk k ≡ ok key)
unfolding gives keep_key
given kid k keys {key} g found = elim (Result-cases (public_key_from_jwk k)) [
  | inl (key', e) ↦
      let same = (str_eq_iff k.kid kid).0 (ground (arith, g, e)) in
      (same, ground (arith, e, found, same, str_eq_refl kid, find_key-put_key kid k.kid key' keys))
  | inr (r, e) ↦ absurd (ground (arith, g, e))
]

-- The last entry that gives a key under the kid.
abbrev pub IsLast : Str → PublicKey → List Jwk → Type 0
IsLast kid key ks =
    (before : List Jwk) × (k : Jwk) × (after : List Jwk) × (ks ≡ before ++ k ∷ after)
    × (k.kid ≡ kid)
    × (public_key_from_jwk k ≡ ok key)
    × (any (gives kid) after ≡ false)

add_keys-IsLast :
    (kid : Str) (key : PublicKey) (keys : List (Str × PublicKey)) (ks : List Jwk)
    → find_key kid (add_keys keys ks) ≡ some key
    → IsLast kid key ks ⊎ ((find_key kid keys ≡ some key) × (any (gives kid) ks ≡ false))
unfolding add_keys
add_keys-IsLast kid key keys [] h = inr (h, refl)
add_keys-IsLast kid key keys (k ∷ ks) h =
    elim (add_keys-IsLast kid key (keep_key k.kid (public_key_from_jwk k) keys) ks h) [
      | inl (before, j, after, e, i, p, n) ↦ inl (k ∷ before, j, after, ap (λ t. k ∷ t) e, i, p, n)
      | inr (found, n) ↦ elim (Bool-cases (gives kid k)) [
        | inl g ↦ let (i, p) = given kid k keys g found in inl ([], k, ks, refl, i, p, n)
        | inr g ↦ inr (sym (find_key-keep_key_none kid k keys g) ∙ found, ground (arith, g, n))
      ]
    ]

IsLast-add_keys :
    (kid : Str) (key : PublicKey) (keys : List (Str × PublicKey)) (before : List Jwk) (k : Jwk)
    (after : List Jwk)
    → k.kid ≡ kid
    → public_key_from_jwk k ≡ ok key
    → any (gives kid) after ≡ false
    → find_key kid (add_keys keys (before ++ k ∷ after)) ≡ some key
unfolding add_keys keep_key
IsLast-add_keys kid key keys [] k after e p h =
    find_key-add_keys_none kid (keep_key k.kid (public_key_from_jwk k) keys) after h
    ∙ ground (arith, p, e, find_key-put_key kid k.kid key keys, str_eq_refl kid)
IsLast-add_keys kid key keys (j ∷ before) k after e p h =
    IsLast-add_keys kid key (keep_key j.kid (public_key_from_jwk j) keys) before k after e p h

-- What a kept key is.
abbrev pub IsSound : PublicKey → Type 0
IsSound (rsa n e) = (0 < n) × (2 ≤ e) × (e ≤ 2 ^ 24)
IsSound (ecdsa x y) = is_on_curve x y ≡ true

exponent-le :
    (exp : ℕ) (bytes : List ℕ) {r : ℕ} → exp ≤ 2 ^ 24 → exponent exp bytes ≡ some r → r ≤ 2 ^ 24
unfolding exponent
exponent-le exp [] h e = ground (arith, h, e)
exponent-le exp (b ∷ bytes) {r} h e = elim (Bool-cases (ltb (2 ^ 24) (exp * 256 + b))) [
  | inl g ↦ absurd (ground (arith, g, e))
  | inr g ↦ exponent-le (exp * 256 + b) bytes (ground (arith, g)) (ground (arith, g, e))
]

rsa_of-IsSound :
    (n : List ℕ) (exp : ℕ) {key : PublicKey} → exp ≤ 2 ^ 24 → rsa_of n exp ≡ ok key → IsSound key
unfolding rsa_of
rsa_of-IsSound n exp {key} b h = elim (Bool-cases (ltb exp 2)) [
  | inl g ↦ absurd (ground (arith, g, h))
  | inr g ↦ elim (Bool-cases (set_bytes 0 n == 0)) [
    | inl z ↦ absurd (ground (arith, g, z, h))
    | inr z ↦
        let e : rsa (set_bytes 0 n) exp ≡ key = ground (arith, g, z, h) in
        subst IsSound e (ground (arith, z), ground (arith, g), b)
  ]
]

rsa_bytes-IsSound : (n e : List ℕ) {key : PublicKey} → rsa_of_bytes n e ≡ ok key → IsSound key
unfolding rsa_of_bytes
rsa_bytes-IsSound n e {key} h = elim (Bool-cases (length n == 0 || length e == 0)) [
  | inl g ↦ absurd (ground (arith, g, h))
  | inr g ↦ elim (Option-cases (exponent 0 e)) [
    | inl x ↦ absurd (ground (arith, g, x, h))
    | inr (exp, x) ↦
        rsa_of-IsSound n exp (exponent-le 0 e (ground arith) x) (ground (arith, g, x, h))
  ]
]

rsa_public_key-IsSound : (k : Jwk) {key : PublicKey} → rsa_public_key k ≡ ok key → IsSound key
unfolding rsa_public_key
rsa_public_key-IsSound k h =
    let (n, a, h1) = bind-ok (or_skip _ (decode_base64_url k.n)) _ h in
    let (e, b, h2) = bind-ok (or_skip _ (decode_base64_url k.e)) _ h1 in rsa_bytes-IsSound n e h2

ecdsa_bytes-IsSound : (x y : List ℕ) {key : PublicKey} → ecdsa_of_bytes x y ≡ ok key → IsSound key
unfolding ecdsa_of_bytes ecdsa_of
ecdsa_bytes-IsSound x y {key} h = elim (Bool-cases (length x == 0 || length y == 0)) [
  | inl g ↦ absurd (ground (arith, g, h))
  | inr g ↦ elim (Bool-cases (is_on_curve (set_bytes 0 x) (set_bytes 0 y))) [
    | inr z ↦ absurd (ground (arith, g, z, h))
    | inl z ↦
        let e : ecdsa (set_bytes 0 x) (set_bytes 0 y) ≡ key = ground (arith, g, z, h) in
        subst IsSound e z
  ]
]

ecdsa_p256-IsSound : (k : Jwk) {key : PublicKey} → ecdsa_p256 k ≡ ok key → IsSound key
unfolding ecdsa_p256
ecdsa_p256-IsSound k h =
    let (x, a, h1) = bind-ok (or_skip _ (decode_base64_url k.x)) _ h in
    let (y, b, h2) = bind-ok (or_skip _ (decode_base64_url k.y)) _ h1 in ecdsa_bytes-IsSound x y h2

pub public_key_from_jwk-IsSound :
    (k : Jwk) {key : PublicKey}
    → public_key_from_jwk k ≡ ok key
    → (k.kid ≢ []) × (str_eq k.use_of (codes "enc") ≡ false) × IsSound key
unfolding public_key_from_jwk ecdsa_public_key
public_key_from_jwk-IsSound k h = elim (Bool-cases (str_eq k.use_of (codes "enc"))) [
  | inl a ↦ absurd (ground (arith, a, h))
  | inr a ↦ elim (Bool-cases (str_eq k.kid [])) [
    | inl b ↦ absurd (ground (arith, a, b, h))
    | inr b ↦
        let present : k.kid ≢ [] = ground (arith, b, str_eq_iff k.kid []) in
        elim (Bool-cases (str_eq k.kty (codes "RSA"))) [
          | inl c ↦ (present, a, rsa_public_key-IsSound k (ground (arith, a, b, c, h)))
          | inr c ↦ elim (Bool-cases (str_eq k.kty (codes "EC"))) [
            | inr d ↦ absurd (ground (arith, a, b, c, d, h))
            | inl d ↦ elim (Bool-cases (str_eq k.crv (codes "P-256"))) [
              | inr e ↦ absurd (ground (arith, a, b, c, d, e, h))
              | inl e ↦ (present, a, ecdsa_p256-IsSound k (ground (arith, a, b, c, d, e, h)))
            ]
          ]
        ]
  ]
]

-- The key set of a document holds a key under a kid exactly if it is the key of the last entry of
-- that kid that can be used, and nothing else: entries that are skipped take no other away.
pub find_key-parse_jwks :
    (kid : Str) (key : PublicKey) (ks : List Jwk) {keys : List (Str × PublicKey)}
    → parse_jwks (some ks) ≡ some keys
    → (find_key kid keys ≡ some key) ↔ IsLast kid key ks
unfolding parse_jwks find_key
find_key-parse_jwks kid key ks {keys} h = (
  λ found. elim (add_keys-IsLast kid key [] ks (ground (arith, h, found))) [
    | inl last ↦ last
    | inr (never, n) ↦ absurd (ground (arith, never))
  ],
  λ (before, k, after, e, i, p, n).
      let same : add_keys [] ks ≡ keys = ground (arith, h) in
      subst (λ t. find_key kid t ≡ some key) same
        (rw e (IsLast-add_keys kid key [] before k after i p n)),
)

-- Every kept key has a kid, an RSA key has a positive modulus and an exponent from 2 to 2^24, and
-- an EC key is a point of P-256.
pub parse_jwks-IsSound :
    (kid : Str) (key : PublicKey) (ks : List Jwk) {keys : List (Str × PublicKey)}
    → parse_jwks (some ks) ≡ some keys
    → find_key kid keys ≡ some key
    → (kid ≢ []) × IsSound key
parse_jwks-IsSound kid key ks {keys} h found =
    let (before, k, after, e, i, p, n) = (find_key-parse_jwks kid key ks h).0 found in
    let (present, signs, sound) = public_key_from_jwk-IsSound k p in
    (subst (λ t. t ≢ []) i present, sound)
