-- ===== src/Store/Ranks/Answers.antt =====
-- What the map of internal/store/ranks.go holds.
use mathlib.Core.Option
use ulsync_server.Prelude.{
  ◌≡◌, refl, Bool, ◌⊎◌, Option, none, List, [], ◌∷◌, Str, arith, ok, Option-cases, inl, inr,
  if◌then◌else◌, any,
}
use ulsync_server.Store.Conflict.{Ranks}
use ulsync_server.Store.Envelope.{Key, key_eq, key_eq_iff, ranks_of}
use ulsync_server.Store.Db.{Db, Driver, find_row}
use ulsync_server.Store.KeyMap.{lookup, lookup-put}
use ulsync_server.Store.Ranks.{note_ranks, ranks_loop, stored_ranks}

-- Is the key asked for?
abbrev pub asked : Key → List Key → Bool
asked key keys = any (λ k. key_eq k key) keys

module _ (u : Str) (db : Db) where
  abbrev at : Key → Option Ranks
  at key = Option.map ranks_of (find_row u key db.envelopes)

  -- The map so far agrees with the store wherever it holds a key.
  lookup-note_ranks :
      (key j : Key) (out : List (Key × Ranks))
      → (lookup j out ≡ none) ⊎ (lookup j out ≡ at j)
      → lookup j (note_ranks key (find_row u key db.envelopes) out)
        ≡ (if key_eq key j then at j else lookup j out)
  unfolding note_ranks
  lookup-note_ranks key j out h = elim (Option-cases (find_row u key db.envelopes)) [
    | inl absent ↦ ground (arith, absent, key_eq_iff key j)
    | inr (e, found) ↦ ground (arith, found, key_eq_iff key j, lookup-put key j (ranks_of e) out)
  ]

  lookup-ranks_loop :
      (keys : List Key) (j : Key) (out : List (Key × Ranks))
      → (lookup j out ≡ none) ⊎ (lookup j out ≡ at j)
      → lookup j (ranks_loop u keys db out) ≡ (if asked j keys then at j else lookup j out)
  unfolding ranks_loop
  lookup-ranks_loop [] j out h = refl
  lookup-ranks_loop (key ∷ keys) j out h = ground (
    arith,
    lookup-note_ranks key j out h,
    lookup-ranks_loop keys j (note_ranks key (find_row u key db.envelopes) out),
  )

-- The map of a successful StoredRanks holds for each requested key the ranks of its row, and no
-- other key: a key without a row is absent.
pub lookup-stored_ranks :
    (d : Driver) (u : Str) (keys : List Key) (db : Db) {m : List (Key × Ranks)}
    → stored_ranks d u keys db ≡ ok m
    → (j : Key)
    → lookup j m ≡ (if asked j keys then Option.map ranks_of (find_row u j db.envelopes) else none)
unfolding stored_ranks
lookup-stored_ranks d u [] db h j = unfold lookup in ground arith
lookup-stored_ranks d u (key ∷ keys) db h j =
    unfold lookup in ground (arith, lookup-ranks_loop u db (key ∷ keys) j [] (inl refl))
