-- ===== src/Config/Redacted.antt =====
-- `Redacted` of internal/config/config.go.
use ulsync_server.Prelude.{
  ◌≡◌, ◌↔◌, refl, ap, inl, inr, Option, none, some, List, [], ◌∷◌, Str, codes, arith, if◌then◌else◌,
  Bool-cases,
}
use ulsync_server.Config.{Config, is_blank}

abbrev pub redacted_secret : Str
redacted_secret = codes "***"

abbrev pub empty_secret_label : Str
empty_secret_label = codes "(empty)"

-- `append([]string(nil), xs...)` is nil for an empty slice.
unfoldable pub copy_slice : Option (List Str) → Option (List Str)
copy_slice none = none
copy_slice (some []) = none
copy_slice (some (x ∷ xs)) = some (x ∷ xs)

unfoldable pub mask : Str → Str
mask s = if is_blank s then empty_secret_label else redacted_secret

-- `Redacted`
unfoldable pub redacted : Config → Config
unfolding copy_slice mask
redacted c = record c {
  auth = record c.auth {
    allowed_algs = copy_slice c.auth.allowed_algs;
    audience = copy_slice c.auth.audience;
    dev_hs256_secret = mask c.auth.dev_hs256_secret;
  };
  admin = record c.admin { token = mask c.admin.token };
}

-- What the panel shows depends on.
abbrev pub with_secrets : Str → Str → Config → Config
with_secrets secret token c = record c {
  auth = record c.auth { dev_hs256_secret = secret };
  admin = record c.admin { token = token };
}

mask_iff : (s t : Str) → (mask s ≡ mask t) ↔ (is_blank s ≡ is_blank t)
unfolding mask
mask_iff s t = elim (Bool-cases (is_blank s)) [
  | inl h ↦ elim (Bool-cases (is_blank t)) [
    | inl k ↦ ground (arith, h, k)
    | inr k ↦ ground (arith, h, k)
  ]
  | inr h ↦ elim (Bool-cases (is_blank t)) [
    | inl k ↦ ground (arith, h, k)
    | inr k ↦ ground (arith, h, k)
  ]
]

-- Two configurations that differ in their secrets only are redacted alike exactly if their secrets are
-- blank in both or in neither.
pub redacted_iff :
    (c : Config) (secret token secret' token' : Str)
    → (redacted (with_secrets secret token c) ≡ redacted (with_secrets secret' token' c))
      ↔ ((is_blank secret ≡ is_blank secret') × (is_blank token ≡ is_blank token'))
unfolding redacted
redacted_iff c secret token secret' token' = (
  λ h. (
    (mask_iff secret secret').0 (ap (λ (x : Config). x.auth.dev_hs256_secret) h),
    (mask_iff token token').0 (ap (λ (x : Config). x.admin.token) h),
  ),
  λ (h, k). rw ((mask_iff secret secret').1 h, (mask_iff token token').1 k) refl,
)
