-- ===== src/GenTokens/Written.antt =====
-- What a run of load/gentokens/main.go without an error leaves.
use ulsync_server.Prelude.{
  ℕ, zero, suc, ◌+◌, ◌^◌, ◌-◌, ◌<◌, ◌≡◌, ◌≢◌, refl, sym, ap, ◌∙◌, true, Option, none, some, List,
  [], ◌∷◌, ◌++◌, Str, length, digits_value, arith, Option-cases, Bool-cases, inl, inr,
}
use ulsync_server.Prelude.Decimal.{decimal, digits_value-decimal}
use ulsync_server.Auth.Jwks.{ecdsa, is_on_curve, parse_jwks, add_keys, keep_key, put_key}
use ulsync_server.GenTokens.{
  load_key_id, ec_jwk, CallResults, write_tokens_file, write_jwks_file, Output, zero_digits,
  four_digits, load_token, sign_tokens, write_tokens, write_jwks, generate,
}
use ulsync_server.GenTokens.RoundTrip.{public_key-ec_jwk}

abbrev pub get_elem? : List Str → ℕ → Option Str
get_elem? [] i = none
get_elem? (s ∷ ss) zero = some s
get_elem? (s ∷ ss) (suc i) = get_elem? ss i

digits_value-zero_digits :
    (n : ℕ) (s : Str) → digits_value 0 (zero_digits n ++ s) ≡ digits_value 0 s
unfolding digits_value
digits_value-zero_digits zero s = refl
digits_value-zero_digits (suc n) s = digits_value-zero_digits n s

digits_value-four_digits : (i : ℕ) → i < 2 ^ 63 → digits_value 0 (four_digits i) ≡ i
unfolding four_digits
digits_value-four_digits i h =
    digits_value-zero_digits (4 - length (decimal 19 i)) (decimal 19 i)
    ∙ digits_value-decimal 19 i (omega arith)

-- The part of a subject after its first ten characters.
abbrev tail : Str → Str
tail [] = []
tail (c ∷ s) = s

abbrev number : Str → ℕ
number s = digits_value 0 (tail (tail (tail (tail (tail (tail (tail (tail (tail (tail s))))))))))

subject_ne :
    (now i j : ℕ)
    → i < 2 ^ 63
    → j < 2 ^ 63
    → i ≢ j
    → (load_token now i).subject ≢ (load_token now j).subject
unfolding load_token
subject_ne now i j hi hj d =
    λ e. d (sym (digits_value-four_digits i hi) ∙ ap number e ∙ digits_value-four_digits j hj)

Signed : CallResults → ℕ → ℕ → List Str → Type 0
Signed a k n ts =
    (t : Str) × (us : List Str) × (a.signed_string (load_token a.now k) ≡ some t)
    × (sign_tokens a (k + 1) n ≡ some us)
    × (ts ≡ t ∷ us)

sign_tokens-Signed :
    (a : CallResults) (k n : ℕ) (ts : List Str)
    → sign_tokens a k (suc n) ≡ some ts
    → Signed a k n ts
unfolding sign_tokens Signed
sign_tokens-Signed a k n ts h = elim (Option-cases (a.signed_string (load_token a.now k))) [
  | inl missing ↦ absurd (ground (arith, h, missing))
  | inr (t, signed) ↦ elim (Option-cases (sign_tokens a (k + 1) n)) [
    | inl missing ↦ absurd (ground (arith, h, signed, missing))
    | inr (us, rest) ↦ (t, us, signed, rest, ground (arith, h, signed, rest))
  ]
]

length-sign_tokens :
    (a : CallResults) (k n : ℕ) (ts : List Str) → sign_tokens a k n ≡ some ts → length ts ≡ n
unfolding sign_tokens Signed
length-sign_tokens a k zero ts h = ground arith
length-sign_tokens a k (suc n) ts h =
    let (t, us, signed, rest, e) = sign_tokens-Signed a k n ts h in
    rw (e, length-sign_tokens a (k + 1) n us rest) refl

get_elem?-sign_tokens :
    (a : CallResults) (k n i : ℕ) (ts : List Str)
    → sign_tokens a k n ≡ some ts
    → i < n
    → get_elem? ts i ≡ a.signed_string (load_token a.now (k + i))
unfolding Signed
get_elem?-sign_tokens a k zero i ts h l = absurd (omega arith)
get_elem?-sign_tokens a k (suc n) zero ts h l =
    let (t, us, signed, rest, e) = sign_tokens-Signed a k n ts h in
    let p : k + 0 ≡ k = omega arith in rw (e, p) (sym signed)
get_elem?-sign_tokens a k (suc n) (suc i) ts h l =
    let (t, us, signed, rest, e) = sign_tokens-Signed a k n ts h in
    let p : k + 1 + i ≡ k + suc i = omega arith in
    rw e (
      get_elem?-sign_tokens a (k + 1) n i us rest (omega arith)
      ∙ ap (λ m. a.signed_string (load_token a.now m)) p)

-- A complete output.
complete : CallResults → ℕ → ℕ → List Str → Output
complete a x y ts = record { jwks = some (ec_jwk load_key_id x y ∷ []); tokens = some ts }

write_tokens-none :
    (a : CallResults) (x y : ℕ) (t : Option (List Str))
    → (write_tokens a (ec_jwk load_key_id x y ∷ []) t).1 ≡ none
    → (ts : List Str) × (t ≡ some ts)
      × ((write_tokens a (ec_jwk load_key_id x y ∷ []) t).0 ≡ complete a x y ts)
unfolding write_tokens complete
write_tokens-none a x y none h = absurd (ground arith)
write_tokens-none a x y (some ts) h = elim (Bool-cases a.writes_tokens) [
  | inl writes ↦ (ts, refl, rw writes refl)
  | inr fails ↦ (let c : some write_tokens_file ≡ none = simp fails at h in absurd (ground arith))
]

write_jwks-none :
    (a : CallResults) (n x y : ℕ)
    → (write_jwks a n (some (x, y))).1 ≡ none
    → (ts : List Str) × (sign_tokens a 0 n ≡ some ts)
      × ((write_jwks a n (some (x, y))).0 ≡ complete a x y ts)
unfolding write_jwks
write_jwks-none a n x y h = elim (Bool-cases a.writes_jwks) [
  | inl writes ↦ simp writes (write_tokens-none a x y (sign_tokens a 0 n) (simp writes at h))
  | inr fails ↦ (let c : some write_jwks_file ≡ none = simp fails at h in absurd (ground arith))
]

generate-none :
    (a : CallResults) (n : ℕ) → (generate a n).1 ≡ none → generate a n ≡ write_jwks a n a.key
unfolding generate
generate-none a n h = ground arith

generate-complete :
    (a : CallResults) (n x y : ℕ)
    → a.key ≡ some (x, y)
    → (generate a n).1 ≡ none
    → (ts : List Str) × (sign_tokens a 0 n ≡ some ts) × ((generate a n).0 ≡ complete a x y ts)
generate-complete a n x y k h =
    let e : generate a n ≡ write_jwks a n (some (x, y)) =
      generate-none a n h ∙ ap (write_jwks a n) k in
    let (ts, signed, o) = write_jwks-none a n x y (ap (λ r. r.1) (sym e) ∙ h) in
    (ts, signed, ap (λ r. r.0) e ∙ o)

parse-ec_jwk :
    (x y : ℕ)
    → is_on_curve x y ≡ true
    → parse_jwks (some (ec_jwk load_key_id x y ∷ [])) ≡ some ((load_key_id, ecdsa x y) ∷ [])
unfolding parse_jwks add_keys keep_key put_key ec_jwk
parse-ec_jwk x y h = rw (public_key-ec_jwk x y h) refl

-- A run of the token generator without an error leaves a key set that the server parses as the one
-- key that was generated, under the kid of each signed token, and as many tokens as asked, the i-th
-- the signed i-th token; and two of the tokens have different subjects. The generated key is on the
-- curve, and the count is below 2^63.
pub generate-Written :
    (a : CallResults) (n x y i j : ℕ)
    → a.key ≡ some (x, y)
    → is_on_curve x y ≡ true
    → (generate a n).1 ≡ none
    → n < 2 ^ 63
    → i < n
    → j < n
    → i ≢ j
    → (parse_jwks (generate a n).0.jwks ≡ some (((load_token a.now i).kid, ecdsa x y) ∷ []))
      × ((ts : List Str) × ((generate a n).0.tokens ≡ some ts)
          × (length ts ≡ n)
          × (get_elem? ts i ≡ a.signed_string (load_token a.now i))
          × ((load_token a.now i).subject ≢ (load_token a.now j).subject))
unfolding complete load_token
generate-Written a n x y i j k c h b hi hj d =
    let (ts, signed, o) = generate-complete a n x y k h in
    let p : 0 + i ≡ i = omega arith in
    (
      ap (λ (r : Output). parse_jwks r.jwks) o ∙ parse-ec_jwk x y c,
      (
        ts,
        ap (λ (r : Output). r.tokens) o,
        length-sign_tokens a 0 n ts signed,
        get_elem?-sign_tokens a 0 n i ts signed hi
            ∙ ap (λ m. a.signed_string (load_token a.now m)) p,
        subject_ne a.now i j (omega arith) (omega arith) d,
      ),
    )
