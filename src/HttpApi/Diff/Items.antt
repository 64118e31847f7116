-- ===== src/HttpApi/Diff/Items.antt =====
-- `validateDiffItems` of internal/httpapi/diff.go answers each key once, by its first item.
use ulsync_server.Prelude.{
  ◌≡◌, refl, Bool, true, false, not, ◌&&◌, ◌||◌, Option, none, some, List, [], ◌∷◌, ◌++◌, arith, ok,
  if◌then◌else◌, inl, inr, Bool-cases, Option-cases,
}
use ulsync_server.Store.Envelope.{Key, key_eq, key_eq_iff}
use ulsync_server.Store.KeyMap.{lookup, put, lookup-put}
use ulsync_server.Store.Ranks.Answers.{asked}
use ulsync_server.HttpApi.Diff.{DiffItem, item_key, validate_diff_item, validate_diff_items}

-- The first item of a key.
unfoldable pub first_item : Key → List DiffItem → Option DiffItem
first_item key [] = none
first_item key (item ∷ items) =
    if key_eq (item_key item) key then some item else first_item key items

abbrev pub is_some {ℓ} : {A : Type ℓ} → Option A → Bool
is_some none = false
is_some (some a) = true

asked-append :
    (key : Key) (xs ys : List Key) → asked key (xs ++ ys) ≡ (asked key xs || asked key ys)
asked-append key [] ys = refl
asked-append key (x ∷ xs) ys = ground (arith, asked-append key xs ys)

module _ (k : Key) where
  lookup-validate_diff_items :
      (items : List DiffItem) (seen order : List Key) (incoming : List (Key × DiffItem))
      {r : List Key × List (Key × DiffItem)}
      → validate_diff_items seen order incoming items ≡ ok r
      → lookup k r.1 ≡ (
          if asked k seen || not (is_some (first_item k items))
          then lookup k incoming
          else first_item k items)
  unfolding validate_diff_items first_item
  lookup-validate_diff_items [] seen order incoming h = ground arith
  lookup-validate_diff_items (item ∷ items) seen order incoming {r = r} h =
      elim (Option-cases (validate_diff_item item)) [
        | inr (f, bad) ↦ absurd (ground arith)
        | inl good ↦ elim (Bool-cases (asked (item_key item) seen)) [
          | inl old ↦ ground (
            arith,
            key_eq_iff (item_key item) k,
            lookup-validate_diff_items items seen order incoming {r = r} (ground arith),
          )
          | inr new ↦ ground (
            arith,
            key_eq_iff (item_key item) k,
            lookup-put (item_key item) k item incoming,
            lookup-validate_diff_items items (item_key item ∷ seen) (order ++ item_key item ∷ [])
                (put (item_key item) item incoming) {r = r} (ground arith),
          )
        ]
      ]

  asked-validate_diff_items :
      (items : List DiffItem) (seen order : List Key) (incoming : List (Key × DiffItem))
      {r : List Key × List (Key × DiffItem)}
      → validate_diff_items seen order incoming items ≡ ok r
      → asked k r.0 ≡ (asked k order || not (asked k seen) && is_some (first_item k items))
  unfolding validate_diff_items first_item
  asked-validate_diff_items [] seen order incoming h = ground arith
  asked-validate_diff_items (item ∷ items) seen order incoming {r = r} h =
      elim (Option-cases (validate_diff_item item)) [
        | inr (f, bad) ↦ absurd (ground arith)
        | inl good ↦ elim (Bool-cases (asked (item_key item) seen)) [
          | inl old ↦ ground (
            arith,
            key_eq_iff (item_key item) k,
            asked-validate_diff_items items seen order incoming {r = r} (ground arith),
          )
          | inr new ↦ ground (
            arith,
            key_eq_iff (item_key item) k,
            asked-append k order (item_key item ∷ []),
            asked-validate_diff_items items (item_key item ∷ seen) (order ++ item_key item ∷ [])
                (put (item_key item) item incoming) {r = r} (ground arith),
          )
        ]
      ]

-- A request that passes validation is answered for exactly the keys that its items name, each with
-- its first item.
pub validate_diff_items-first :
    (items : List DiffItem) (order : List Key) (incoming : List (Key × DiffItem))
    → validate_diff_items [] [] [] items ≡ ok (order, incoming)
    → (k : Key)
    → (lookup k incoming ≡ first_item k items) × (asked k order ≡ is_some (first_item k items))
validate_diff_items-first items order incoming h k = (
  unfold lookup in ground (arith, lookup-validate_diff_items k items [] [] [] h),
  ground (arith, asked-validate_diff_items k items [] [] [] h),
)
