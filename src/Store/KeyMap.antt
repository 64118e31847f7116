-- ===== src/Store/KeyMap.antt =====
-- Go maps keyed by `Key` of internal/store/ranks.go, as association lists. The program never
-- iterates over one.
use ulsync_server.Prelude.{◌≡◌, Option, none, some, List, [], ◌∷◌, arith, if◌then◌else◌}
use ulsync_server.Store.Envelope.{Key, key_eq, key_eq_iff}

module _ {ℓ} {V : Type ℓ} where
  -- `m[key]`
  unfoldable pub lookup : Key → List (Key × V) → Option V
  lookup key [] = none
  lookup key ((k, v) ∷ m) = if key_eq k key then some v else lookup key m

  -- `m[key] = v`
  unfoldable pub put : Key → V → List (Key × V) → List (Key × V)
  put key v [] = (key, v) ∷ []
  put key v ((k, w) ∷ m) = if key_eq k key then (k, v) ∷ m else (k, w) ∷ put key v m

  pub lookup-put :
      (key j : Key) (v : V) (m : List (Key × V))
      → lookup j (put key v m) ≡ (if key_eq key j then some v else lookup j m)
  unfolding lookup put
  lookup-put key j v [] = ground arith
  lookup-put key j v ((k, w) ∷ m) =
      ground (arith, key_eq_iff k key, key_eq_iff k j, key_eq_iff key j, lookup-put key j v m)
